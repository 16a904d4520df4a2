-- ===== src/Retention/Selection.antt =====
-- What a batch deletes.
use cryptopulse_telegram_bot.Prelude.{
  All-take, ℕ, ◌≡◌, ◌≢◌, refl, sym, ap, subst, inl, inr, arith, Bool, true, false, not, List, [],
  ◌∷◌, map, All, Elem, if◌then◌else◌,
}
use cryptopulse_telegram_bot.Workers.{retention_cleanup_limit}
use cryptopulse_telegram_bot.Schema.{Db}
use cryptopulse_telegram_bot.Table.{delete}
use cryptopulse_telegram_bot.Table.Laws.{All-select-Elem, All-order_by}
use cryptopulse_telegram_bot.Retention.{History, is_before, is_listed, expired, delete_expired}

-- A row at which the test of a DELETE does not hold stays.
Elem-delete :
    {A : Type 0} (p : A → Bool) (xs : List A) (x : A)
    → p x ≡ false
    → Elem x xs
    → Elem x (delete p xs)
Elem-delete p [] x h e = absurd e
Elem-delete p (y ∷ xs) x h e = placed (p y) refl (Elem-delete p xs x h) e
  where
    placed :
        (b : Bool)
        → p y ≡ b
        → (Elem x xs → Elem x (delete p xs))
        → Elem x (y ∷ xs)
        → Elem x (if not b then y ∷ delete p xs else delete p xs)
    placed true q rest (inl s) = absurd (ground (arith, q, h, ap p s))
    placed true q rest (inr t) = rest t
    placed false q rest (inl s) = inl s
    placed false q rest (inr t) = inr (rest t)

module _ {A : Type 0} (h : History A) where
  -- The primary key: two rows with one key are one row.
  abbrev pub HasKey : List A → Type 0
  HasKey rows = (x y : A) → Elem x rows → Elem y rows → h.key x ≡ h.key y → x ≡ y

  not_listed :
      (now : ℕ) (db : Db) (row : A) (ys : List A)
      → HasKey (h.table db)
      → Elem row (h.table db)
      → h.has_expired now db row ≡ false
      → All (λ y. (h.has_expired now db y ≡ true) × Elem y (h.table db)) ys
      → is_listed h (map h.key ys) row ≡ false
  not_listed now db row [] unique e live all = refl
  not_listed now db row (y ∷ ys) unique e live all =
      ground (arith, other, not_listed now db row ys unique e live all.1)
    where
      other : h.key y ≢ h.key row
      other same =
          absurd
            (ground (arith, live, all.0.0, ap (h.has_expired now db) (unique y row all.0.1 e same)))

  -- A batch deletes expired rows only: where keys are unique, a row that has not expired is still in
  -- the table after the statement of a batch.
  pub delete_expired-Elem :
      (now : ℕ) (db : Db) (row : A)
      → HasKey (h.table db)
      → Elem row (h.table db)
      → h.has_expired now db row ≡ false
      → Elem row (h.table (delete_expired h now db).1)
  unfolding delete_expired
  delete_expired-Elem now db row unique e live =
      subst (Elem row) (sym (h.removed (is_listed h (expired h now db)) db)) (
        Elem-delete (is_listed h (expired h now db)) (h.table db) row
          (not_listed now db row _ unique e live (
            All-take _ retention_cleanup_limit _ (
              All-order_by (is_before h) _ _
                (All-select-Elem (h.has_expired now db) (h.table db)))))
          e)
