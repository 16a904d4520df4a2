-- ===== src/Bytes/Equality.antt =====
-- The test of equal texts, and tables with a text as their key: how a Go map is looked up and set.
use cryptopulse_telegram_bot.Prelude.{
  ap₂, sym, subst, inl, inr, ◌∙◌, ◌≡◌, refl, arith, true, Option, none, some, List, [], ◌∷◌,
  if◌then◌else◌, Bool-cases,
}
use cryptopulse_telegram_bot.Bytes.{Bytes, bytes_eq}

pub bytes_eq_sound : (a b : Bytes) → bytes_eq a b ≡ true → a ≡ b
bytes_eq_sound [] [] h = refl
bytes_eq_sound [] (y ∷ b) h = absurd (ground (arith, h))
bytes_eq_sound (x ∷ a) [] h = absurd (ground (arith, h))
bytes_eq_sound (x ∷ a) (y ∷ b) h = ap₂ (λ c t. c ∷ t) same (bytes_eq_sound a b rest)
  where
    same : x ≡ y
    same = ground (arith, h)

    rest : bytes_eq a b ≡ true
    rest = ground (arith, h)

pub bytes_eq_refl : (a : Bytes) → bytes_eq a a ≡ true
bytes_eq_refl [] = refl
bytes_eq_refl (x ∷ a) = ground (arith, bytes_eq_refl a)

pub bytes_eq_sym : (a b : Bytes) → bytes_eq a b ≡ bytes_eq b a
bytes_eq_sym [] [] = refl
bytes_eq_sym [] (y ∷ b) = refl
bytes_eq_sym (x ∷ a) [] = refl
bytes_eq_sym (x ∷ a) (y ∷ b) = ground (arith, bytes_eq_sym a b)

-- A table with a text as its key, and the two operations of a Go map.
module _ {V : Type 0} where
  unfoldable pub get : Bytes → List (Bytes × V) → Option V
  get k [] = none
  get k ((j, v) ∷ m) = if bytes_eq j k then some v else get k m

  unfoldable pub put : Bytes → V → List (Bytes × V) → List (Bytes × V)
  put k v [] = (k, v) ∷ []
  put k v ((j, u) ∷ m) = if bytes_eq j k then (j, v) ∷ m else (j, u) ∷ put k v m

  pub get-put :
      (k j : Bytes) (v : V) (m : List (Bytes × V))
      → get j (put k v m) ≡ (if bytes_eq k j then some v else get j m)
  unfolding get put
  get-put k j v [] = refl
  get-put k j v ((i, u) ∷ m) = elim (Bool-cases (bytes_eq i k)) [
    | inl e ↦
        rw (e, bytes_eq_sound i k e)
          (elim (Bool-cases (bytes_eq k j)) [ inl f ↦ rw f refl | inr f ↦ rw f refl ])
    | inr e ↦ rw e (elim (Bool-cases (bytes_eq i j)) [
      | inl f ↦ rw f (elim (Bool-cases (bytes_eq k j)) [
        | inl g ↦ absurd (ground (arith, e, other f g))
        | inr g ↦ rw g refl
      ])
      | inr f ↦ rw f (get-put k j v m)
    ])
  ]
    where
      other : bytes_eq i j ≡ true → bytes_eq k j ≡ true → bytes_eq i k ≡ true
      other f g =
          subst (λ z. bytes_eq i z ≡ true) (bytes_eq_sound i j f ∙ sym (bytes_eq_sound k j g))
            (bytes_eq_refl i)
