-- ===== src/Table.antt =====
-- A table as the list of its rows, and the SQL statements on it: UPDATE … WHERE, DELETE … WHERE,
-- COUNT(*) and the row of a RETURNING clause.
pub mod Laws
use cryptopulse_telegram_bot.Prelude.{
  ℕ, Bool, Option, none, some, List, [], ◌∷◌, length, select, not, if◌then◌else◌,
}

module _ {A : Type 0} where
  -- UPDATE t SET f WHERE p, and how many rows it changes.
  abbrev pub update : (A → Bool) → (A → A) → List A → List A
  update p f [] = []
  update p f (x ∷ xs) = (if p x then f x else x) ∷ update p f xs

  abbrev pub affected : (A → Bool) → List A → ℕ
  affected p xs = length (select p xs)

  -- DELETE FROM t WHERE p
  abbrev pub delete : (A → Bool) → List A → List A
  delete p = select (λ x. not (p x))

  -- The first row at which a test holds.
  abbrev pub find : (A → Bool) → List A → Option A
  find p [] = none
  find p (x ∷ xs) = if p x then some x else find p xs

  -- ORDER BY: a row goes in front of the first one that it precedes.
  unfoldable pub insert_by : (A → A → Bool) → A → List A → List A
  insert_by precedes x [] = x ∷ []
  insert_by precedes x (y ∷ ys) = if precedes x y then x ∷ y ∷ ys else y ∷ insert_by precedes x ys

  unfoldable pub order_by : (A → A → Bool) → List A → List A
  unfolding insert_by
  order_by precedes [] = []
  order_by precedes (x ∷ xs) = insert_by precedes x (order_by precedes xs)
