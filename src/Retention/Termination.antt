-- ===== src/Retention/Termination.antt =====
-- The loop over batches ends.
use cryptopulse_telegram_bot.Prelude.{
  ℕ, zero, suc, ◌+◌, ◌*◌, ◌≤◌, ◌<◌, ◌≡◌, refl, if◌then◌else◌, ap, arith, Bool, true, false, none,
  some, List, [], ◌∷◌, ltb, length,
}
use cryptopulse_telegram_bot.Workers.{retention_cleanup_limit}
use cryptopulse_telegram_bot.Schema.{Db}
use cryptopulse_telegram_bot.Table.{affected, delete}
use cryptopulse_telegram_bot.Session.{
  Env, World, Act, Result, ok, inc, db_operations_total, rows_affected,
}
use cryptopulse_telegram_bot.Session.Rules.{handle_then, confirmed_continue, answered_cases}
use cryptopulse_telegram_bot.Retention.{
  History, Drained, is_listed, expired, delete_expired, delete_batch, drain_failed, after_batch,
  drain_retention_batches, cleanup,
}

delete-affected :
    {A : Type 0} (p : A → Bool) (xs : List A) → length (delete p xs) + affected p xs ≡ length xs
delete-affected p [] = omega arith
delete-affected p (x ∷ xs) = ground (arith, delete-affected p xs)

ok_injective : {m n : ℕ} → ◌≡◌ {A = Result ℕ} (ok m) (ok n) → m ≡ n
ok_injective e = ground (arith, e)

module _ {A : Type 0} (h : History A) (env : Env) where
  -- Other sessions add no row to the table.
  abbrev pub NoneAdded : Type 0
  NoneAdded = (n : ℕ) (d : Db) → length (h.table (env.others n d)) ≤ length (h.table d)

  -- A batch takes the rows that it counts out of the table, and adds none.
  abbrev Counted : ℕ → Result ℕ × World → Type 0
  Counted most r =
      (length (h.table r.1.db) ≤ most) × ((n : ℕ) → r.0 ≡ ok n → length (h.table r.1.db) + n ≤ most)

  deleted_rows :
      (now : ℕ) (d : Db)
      → length (h.table (delete_expired h now d).1) + (delete_expired h now d).0
        ≡ length (h.table d)
  unfolding delete_expired
  deleted_rows now d = omega (
    arith,
    ap length (h.removed (is_listed h (expired h now d)) d),
    delete-affected (is_listed h (expired h now d)) (h.table d),
  )

  delete_batch-Counted :
      NoneAdded → (w : World) → Counted (length (h.table w.db)) (delete_batch h env w)
  delete_batch-Counted none_added w =
      confirmed_continue (Counted (length (h.table w.db))) (rows_affected env) _ _ _ _
        (λ m. (none_added w.calls w.db, λ n e. absurd (ground (arith, e))))
        (λ m. (fewer, λ n e. absurd (ground (arith, e))))
        (answered_cases (Counted (length (h.table w.db))) _ _ _ _
          (λ m. (fewer, λ n e. absurd (ground (arith, e))))
          (fewer, λ n e. counted n (ok_injective e)))
    where
      d : Db
      d = env.others w.calls w.db

      fewer : length (h.table (delete_expired h (env.clock w.calls) d).1) ≤ length (h.table w.db)
      fewer = omega (arith, deleted_rows (env.clock w.calls) d, none_added w.calls w.db)

      counted :
          (n : ℕ)
          → (delete_expired h (env.clock w.calls) d).0 ≡ n
          → length (h.table (delete_expired h (env.clock w.calls) d).1) + n ≤ length (h.table w.db)
      counted n e = omega (arith, e, deleted_rows (env.clock w.calls) d, none_added w.calls w.db)

  -- The loop has returned, and the rows that it reports have left the table.
  abbrev pub Reports : ℕ → Drained × World → Type 0
  Reports most (none, w) = ⊥
  Reports most (some (total, e), w) = length (h.table w.db) + total ≤ most

  after_batch-Reports :
      (most : ℕ) (more : ℕ → Act Drained) (total deleted : ℕ) (w : World)
      → length (h.table w.db) + (total + deleted) ≤ most
      → (1000 ≤ deleted → Reports most (more (total + deleted) w))
      → Reports most (after_batch h.operation more total deleted w)
  unfolding after_batch
  after_batch-Reports most more total deleted w few rest =
      next (ltb deleted retention_cleanup_limit) refl
    where
      next :
          (b : Bool)
          → ltb deleted retention_cleanup_limit ≡ b
          → Reports most (
              if b
              then (
                some (total + deleted, none),
                (inc (db_operations_total h.operation "success") w).1,
              )
              else more (total + deleted) w)
      next true e = few
      next false e = rest (ground (arith, e))

  drain_lem :
      NoneAdded
      → (fuel total most : ℕ) (w : World) → length (h.table w.db) < fuel * 1000
      → length (h.table w.db) + total ≤ most
      → Reports most (drain_retention_batches h.operation (delete_batch h env) fuel total w)
  unfolding drain_retention_batches drain_failed
  drain_lem none_added zero total most w few sum = absurd (omega (arith, few))
  drain_lem none_added (suc fuel) total most w few sum =
      handle_then (Reports most) _ _ (delete_batch h env w)
        (λ n e.
          after_batch-Reports most _ total n (delete_batch h env w).1
            (omega (arith, sum, batch.1 n e))
            (λ full.
              drain_lem none_added fuel (total + n) most (delete_batch h env w).1
                (omega (arith, few, full, batch.1 n e)) (omega (arith, sum, batch.1 n e))))
        (λ e failed. omega (arith, batch.0, sum))
    where
      batch : Counted (length (h.table w.db)) (delete_batch h env w)
      batch = delete_batch-Counted none_added w

  -- For each of the four tables: if the other sessions add no row to it, and it has fewer than a
  -- thousand rows for each unit of fuel, then drainRetentionBatches returns, with an error or without,
  -- and its count and the rows that are left are no more than the rows before.
  pub cleanup-Reports :
      NoneAdded
      → (fuel : ℕ) (w : World) → length (h.table w.db) < fuel * 1000
      → Reports (length (h.table w.db)) (cleanup h env fuel w)
  cleanup-Reports none_added fuel w few = drain_lem none_added fuel 0 _ w few (omega arith)
