-- ===== src/Table/Laws.antt =====
-- Laws of the statements on tables.
use cryptopulse_telegram_bot.Prelude.{
  ◌≡◌, refl, ◌⊎◌, ◌+◌, ◌≤◌, ◌<◌, ◌++◌, inl, inr, Bool, true, false, none, some, List, [], ◌∷◌,
  arith, if◌then◌else◌, if_both, ℕ, zero, suc, take, any, All, Bool-cases, Elem, sym, subst, ◌∙◌,
  not, select,
}
use cryptopulse_telegram_bot.Table.{update, affected, delete, find, insert_by, order_by}

module _ {A : Type 0} (p : A → Bool) (f : A → A) where
  -- An UPDATE that affects no row changes nothing.
  pub update-affected_zero : (xs : List A) → affected p xs ≡ 0 → update p f xs ≡ xs
  update-affected_zero [] h = refl
  update-affected_zero (x ∷ xs) h = elim (Bool-cases (p x)) [
    | inl e ↦ absurd (ground (arith, e))
    | inr e ↦ ground (arith, e, update-affected_zero xs)
  ]

  -- An UPDATE keeps what its change keeps on the rows that it selects.
  pub All-update {κ} :
      (P : A → Type κ) (xs : List A)
      → ((x : A) → p x ≡ true → P x → P (f x))
      → All P xs
      → All P (update p f xs)
  All-update P [] keep h = tt
  All-update P (x ∷ xs) keep h = (one (p x) refl, All-update P xs keep h.1)
    where
      one : (b : Bool) → p x ≡ b → P (if b then f x else x)
      one true e = keep x e h.0
      one false e = h.0

  -- A row that an UPDATE does not select stays in the table as it is.
  pub Elem-update : (xs : List A) (x : A) → p x ≡ false → Elem x xs → Elem x (update p f xs)
  Elem-update [] x h e = absurd e
  Elem-update (y ∷ xs) x h (inl e) = inl (e ∙ sym (skipped (p y) (subst (λ z. p z ≡ false) e h)))
    where
      skipped : (b : Bool) → b ≡ false → (if b then f y else y) ≡ y
      skipped true i = cc
      skipped false i = refl
  Elem-update (y ∷ xs) x h (inr t) = inr (Elem-update xs x h t)

  pub update_unfound : (xs : List A) → find p xs ≡ none → update p f xs ≡ xs
  update_unfound [] h = refl
  update_unfound (x ∷ xs) h = elim (Bool-cases (p x)) [
    | inl e ↦ absurd (ground (arith, e))
    | inr e ↦ ground (arith, e, update_unfound xs)
  ]

module _ {A : Type 0} (p : A → Bool) where
  pub find_holds : (xs : List A) (x : A) → find p xs ≡ some x → p x ≡ true
  find_holds [] x h = ground arith
  find_holds (y ∷ xs) x h = ground (arith, find_holds xs x)

  pub affected-find :
      (xs : List A)
      → ((affected p xs ≡ 0) × (find p xs ≡ none)) ⊎ ((x : A) × (find p xs ≡ some x) × (p x ≡ true))
  affected-find [] = inl (refl, refl)
  affected-find (x ∷ xs) = elim (Bool-cases (p x)) [
    | inl e ↦ inr (x, ground (arith, e), e)
    | inr e ↦ ground (arith, e, affected-find xs)
  ]

  pub All-delete {κ} : (P : A → Type κ) (xs : List A) → All P xs → All P (delete p xs)
  All-delete P [] h = tt
  All-delete P (x ∷ xs) h = kept (p x) (All-delete P xs h.1)
    where
      kept :
          (b : Bool) → All P (delete p xs) → All P (if not b then x ∷ delete p xs else delete p xs)
      kept true t = t
      kept false t = (h.0, t)

module _ {A : Type 0} where
  -- The rows after an UPDATE, each from the row before it.
  pub All-update_to {κ} :
      (p : A → Bool) (f : A → A) (P Q : A → Type κ) (xs : List A)
      → ((x : A) → P x → Q (if p x then f x else x))
      → All P xs
      → All Q (update p f xs)
  All-update_to p f P Q [] step h = tt
  All-update_to p f P Q (x ∷ xs) step h = (step x h.0, All-update_to p f P Q xs step h.1)

  pub All-insert_by {κ} :
      (before : A → A → Bool) (P : A → Type κ) (x : A) (xs : List A)
      → P x
      → All P xs
      → All P (insert_by before x xs)
  unfolding insert_by
  All-insert_by before P x [] hx h = (hx, tt)
  All-insert_by before P x (y ∷ xs) hx h = placed (before x y) (All-insert_by before P x xs hx h.1)
    where
      placed :
          (b : Bool)
          → All P (insert_by before x xs)
          → All P (if b then x ∷ y ∷ xs else y ∷ insert_by before x xs)
      placed true t = (hx, h)
      placed false t = (h.0, t)

  pub All-order_by {κ} :
      (before : A → A → Bool) (P : A → Type κ) (xs : List A) → All P xs → All P (order_by before xs)
  unfolding order_by
  All-order_by before P [] h = tt
  All-order_by before P (x ∷ xs) h =
      All-insert_by before P x (order_by before xs) h.0 (All-order_by before P xs h.1)

  -- The rows that a query selects satisfy its test and stand in the table.
  select_within :
      (p : A → Bool) (xs all : List A)
      → ((x : A) → Elem x xs → Elem x all)
      → All (λ x. (p x ≡ true) × Elem x all) (select p xs)
  select_within p [] all within = tt
  select_within p (x ∷ xs) all within =
      kept (p x) refl (select_within p xs all (λ y e. within y (inr e)))
    where
      kept :
          (b : Bool)
          → p x ≡ b
          → All (λ y. (p y ≡ true) × Elem y all) (select p xs)
          → All (λ y. (p y ≡ true) × Elem y all) (if b then x ∷ select p xs else select p xs)
      kept true e t = ((e, within x (inl refl)), t)
      kept false e t = t

  pub All-select-Elem :
      (p : A → Bool) (xs : List A) → All (λ x. (p x ≡ true) × Elem x xs) (select p xs)
  All-select-Elem p xs = select_within p xs xs (λ x e. e)

pub affected_last :
    {A : Type 0} (p : A → Bool) (xs : List A) (y : A)
    → affected p (xs ++ y ∷ []) ≡ affected p xs + (if p y then 1 else 0)
affected_last p [] y = ground arith
affected_last p (x ∷ xs) y = ground (arith, affected_last p xs y)

pub found_affected :
    {A : Type 0} (p : A → Bool) (xs : List A) (x : A) → find p xs ≡ some x → 1 ≤ affected p xs
found_affected p [] x h = ground arith
found_affected p (y ∷ xs) x h = ground (arith, found_affected p xs x)

-- How many rows a query keeps.
module _ {A : Type 0} (p : A → Bool) where
  pub affected-take_le : (n : ℕ) (xs : List A) → affected p (take n xs) ≤ affected p xs
  affected-take_le zero xs = omega arith
  affected-take_le (suc n) [] = omega arith
  affected-take_le (suc n) (x ∷ xs) = ground (arith, affected-take_le n xs)

  pub affected-select_le : (q : A → Bool) (xs : List A) → affected p (select q xs) ≤ affected p xs
  affected-select_le q [] = omega arith
  affected-select_le q (x ∷ xs) = elim (Bool-cases (q x)) [
    | inl e ↦ ground (arith, e, affected-select_le q xs)
    | inr e ↦ ground (arith, e, affected-select_le q xs)
  ]

  affected-insert_by :
      (before : A → A → Bool) (x : A) (xs : List A)
      → affected p (insert_by before x xs) ≡ affected p (x ∷ xs)
  unfolding insert_by
  affected-insert_by before x [] = refl
  affected-insert_by before x (y ∷ xs) =
      if_both (λ l. affected p l ≡ affected p (x ∷ y ∷ xs)) (before x y) _ _ refl
        (ground (arith, affected-insert_by before x xs))

  pub affected-order_by :
      (before : A → A → Bool) (xs : List A) → affected p (order_by before xs) ≡ affected p xs
  unfolding order_by
  affected-order_by before [] = refl
  affected-order_by before (x ∷ xs) =
      affected-insert_by before x (order_by before xs) ∙ ground (arith, affected-order_by before xs)

  pub any-affected : (xs : List A) → any p xs ≡ false → affected p xs ≡ 0
  any-affected [] h = refl
  any-affected (x ∷ xs) h = ground (arith, h, any-affected xs)

  pub find_All : (P : A → Type 0) (xs : List A) (x : A) → All P xs → find p xs ≡ some x → P x
  find_All P [] x h e = absurd (ground (arith, e))
  find_All P (y ∷ xs) x h e = found (p y) e (find_All P xs x h.1)
    where
      same : some y ≡ some x → y ≡ x
      same e = cc

      found :
          (b : Bool) → (if b then some y else find p xs) ≡ some x → (find p xs ≡ some x → P x) → P x
      found true e rest = subst P (same e) h.0
      found false e rest = rest e

-- Queries lose no row that they select.
module _ {A : Type 0} where
  pub Elem-select :
      (p : A → Bool) (xs : List A) (x : A) → p x ≡ true → Elem x xs → Elem x (select p xs)
  Elem-select p [] x h e = absurd e
  Elem-select p (y ∷ xs) x h (inl e) = first (p y) (subst (λ z. p z ≡ true) e h)
    where
      first : (b : Bool) → b ≡ true → Elem x (if b then y ∷ select p xs else select p xs)
      first true i = inl e
      first false i = absurd (ground (arith, i))
  Elem-select p (y ∷ xs) x h (inr t) = later (p y) (Elem-select p xs x h t)
    where
      later :
          (b : Bool) → Elem x (select p xs) → Elem x (if b then y ∷ select p xs else select p xs)
      later true i = inr i
      later false i = i

  Elem-insert_by :
      (before : A → A → Bool) (y : A) (xs : List A) (x : A)
      → Elem x (y ∷ xs)
      → Elem x (insert_by before y xs)
  unfolding insert_by
  Elem-insert_by before y [] x e = e
  Elem-insert_by before y (z ∷ xs) x e = placed (before y z) e (Elem-insert_by before y xs x)
    where
      placed :
          (b : Bool)
          → Elem x (y ∷ z ∷ xs)
          → (Elem x (y ∷ xs) → Elem x (insert_by before y xs))
          → Elem x (if b then y ∷ z ∷ xs else z ∷ insert_by before y xs)
      placed true i rest = i
      placed false (inl i) rest = inr (rest (inl i))
      placed false (inr (inl i)) rest = inl i
      placed false (inr (inr i)) rest = inr (rest (inr i))

  pub Elem-order_by :
      (before : A → A → Bool) (xs : List A) (x : A) → Elem x xs → Elem x (order_by before xs)
  unfolding order_by
  Elem-order_by before [] x e = e
  Elem-order_by before (y ∷ xs) x (inl e) = Elem-insert_by before y (order_by before xs) x (inl e)
  Elem-order_by before (y ∷ xs) x (inr e) =
      Elem-insert_by before y (order_by before xs) x (inr (Elem-order_by before xs x e))

-- A row that a query finds, and one for which EXISTS holds, stands in the table.
module _ {A : Type 0} where
  pub Elem-find : (p : A → Bool) (xs : List A) (x : A) → find p xs ≡ some x → Elem x xs
  Elem-find p [] x h = absurd (ground (arith, h))
  Elem-find p (y ∷ xs) x h = placed (p y) (Elem-find p xs x) h
    where
      same : some y ≡ some x → y ≡ x
      same e = cc

      placed :
          (b : Bool)
          → (find p xs ≡ some x → Elem x xs)
          → (if b then some y else find p xs) ≡ some x
          → Elem x (y ∷ xs)
      placed true rest e = inl (sym (same e))
      placed false rest e = inr (rest e)

  pub any_holds :
      (p : A → Bool) (xs : List A) → any p xs ≡ true → (x : A) × Elem x xs × (p x ≡ true)
  any_holds p [] h = absurd (ground (arith, h))
  any_holds p (y ∷ xs) h = elim (Bool-cases (p y)) [
    | inl e ↦ (y, inl refl, e)
    | inr e ↦ let (x, i, k) = any_holds p xs (ground (arith, h, e)) in (x, inr i, k)
  ]

  pub any_none : (p : A → Bool) (xs : List A) (x : A) → any p xs ≡ false → Elem x xs → p x ≡ false
  any_none p (y ∷ xs) x h (inl e) = subst (λ z. p z ≡ false) (sym e) (ground (arith, h))
  any_none p (y ∷ xs) x h (inr e) = any_none p xs x (ground (arith, h)) e
  any_none p [] x h e = absurd e

-- A statement that changed a row has left the changed row in the table.
pub updated_stands :
    {A : Type 0} (p : A → Bool) (f : A → A) (xs : List A)
    → 0 < affected p xs
    → (x : A) × Elem x xs × (p x ≡ true) × Elem (f x) (update p f xs)
updated_stands p f [] h = absurd (omega (arith, h))
updated_stands p f (y ∷ xs) h = elim (Bool-cases (p y)) [
  | inl e ↦ (y, inl refl, e, rw e (inl refl))
  | inr e ↦
      let (x, i, k, l) = updated_stands p f xs (ground (arith, h, e)) in (x, inr i, k, rw e (inr l))
]
