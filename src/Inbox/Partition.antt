-- ===== src/Inbox/Partition.antt =====
-- telegramShardIndex and telegramWorkerShardIDs of internal/app/telegram_inbox.go: chats are spread
-- over shards, and shards over workers.
use cryptopulse_telegram_bot.Prelude.{
  ℕ, zero, suc, ◌+◌, ◌-◌, ◌*◌, ◌/◌, ◌%◌, ◌≤◌, ◌<◌, ◌≡◌, refl, sym, ◌∙◌, subst, ◌↔◌, inl, inr, ◌||◌,
  List, [], ◌∷◌, arith, ltb, leb, ◌==◌, if◌then◌else◌, ℤ, pos, negsuc, Elem, Bool-cases,
}
use cryptopulse_telegram_bot.Workers.{telegram_update_shard_count}
use native.Mathlib.Nat.{mod-eq_of_lt, mod-eq-sub-mod, add-mod_right, mul-mod_left, div-add-mod'}

-- chatID % shardCount of a negative chat id is not positive, so that shardCount is added unless it
-- is 0.
unfoldable pub telegram_shard_index : ℤ → ℕ → ℕ
telegram_shard_index (pos chat) count = if leb count 1 then 0 else chat % count
telegram_shard_index (negsuc chat) count =
    if leb count 1 then 0 else let r = suc chat % count in if r == 0 then 0 else count - r

-- The loop; every round but the last raises the shard id, so that as many rounds as there are shards
-- are enough.
shard_ids_from : ℕ → ℕ → ℕ → List ℕ
shard_ids_from zero shard step = []
shard_ids_from (suc fuel) shard step =
    let rest = shard_ids_from fuel (shard + step) step in
    if ltb shard telegram_update_shard_count then shard ∷ rest else []

unfoldable pub telegram_worker_shard_ids : ℤ → ℤ → List ℕ
unfolding shard_ids_from
telegram_worker_shard_ids (pos worker) (pos count) =
    if ltb count 1 || leb count worker
    then []
    else shard_ids_from telegram_update_shard_count worker count
telegram_worker_shard_ids (pos worker) (negsuc count) = []
telegram_worker_shard_ids (negsuc worker) count = []

-- The shard of a chat is its id modulo 64, for negative ids too.
pub telegram_shard_index-mod :
    (chat : ℤ)
    → (telegram_shard_index chat 64 < 64)
      × ((n : ℕ) → chat ≡ pos n → telegram_shard_index chat 64 ≡ n % 64)
      × ((n : ℕ) → chat ≡ negsuc n → (telegram_shard_index chat 64 + suc n) % 64 ≡ 0)
unfolding telegram_shard_index
telegram_shard_index-mod (pos chat) = (ground arith, (λ n e. ground (arith, value e)), (λ n e. cc))
  where
    value : {n : ℕ} → pos chat ≡ pos n → chat ≡ n
    value e = ground (arith, e)
telegram_shard_index-mod (negsuc chat) =
    (ground arith, (λ n e. cc), (λ n e. ground (arith, value e)))
  where
    value : {n : ℕ} → negsuc chat ≡ negsuc n → chat ≡ n
    value e = ground (arith, e)

module _ (step : ℕ) (positive : 0 < step) where
  shard_ids_from_sound :
      (fuel shard s : ℕ)
      → Elem s (shard_ids_from fuel shard step)
      → (s < 64) × (s % step ≡ shard % step)
  unfolding shard_ids_from
  shard_ids_from_sound zero shard s h = absurd h
  shard_ids_from_sound (suc fuel) shard s h = elim (Bool-cases (ltb shard 64)) [
    | inl l ↦
        found
          (subst (λ b. Elem s (if b then shard ∷ shard_ids_from fuel (shard + step) step else [])) l
            h)
          (ground (arith, l)) (shard_ids_from_sound fuel (shard + step) s)
    | inr l ↦ absurd (
        subst (λ b. Elem s (if b then shard ∷ shard_ids_from fuel (shard + step) step else [])) l h)
  ]
    where
      found :
          Elem s (shard ∷ shard_ids_from fuel (shard + step) step)
          → shard < 64
          → (Elem s (shard_ids_from fuel (shard + step) step)
              → (s < 64) × (s % step ≡ (shard + step) % step))
          → (s < 64) × (s % step ≡ shard % step)
      found (inl e) l later =
          (subst (λ n. n < 64) (sym e) l, subst (λ n. n % step ≡ shard % step) (sym e) refl)
      found (inr t) l later = ((later t).0, (later t).1 ∙ add-mod_right shard step)

  shard_ids_from_complete :
      (fuel shard d : ℕ)
      → shard + d < 64
      → d % step ≡ 0
      → d < fuel
      → Elem (shard + d) (shard_ids_from fuel shard step)
  unfolding shard_ids_from
  shard_ids_from_complete zero shard d b m f = absurd (omega (arith, f))
  shard_ids_from_complete (suc fuel) shard d b m f = elim (Bool-cases (ltb shard 64)) [
    | inl l ↦ rw l (elim (Bool-cases (d == 0)) [
      | inl z ↦ inl (ground (arith, z))
      | inr z ↦ inr (
          later (at_least (ground (arith, z)))
            (shard_ids_from_complete fuel (shard + step) (d - step)))
    ])
    | inr l ↦ absurd (ground (arith, l))
  ]
    where
      at_least : 0 < d → step ≤ d
      at_least p = elim (Bool-cases (ltb d step)) [
        | inl k ↦ absurd (omega (arith, m, p, mod-eq_of_lt {n = d} {m = step} (ground (arith, k))))
        | inr k ↦ ground (arith, k)
      ]

      later :
          step ≤ d
          → (shard + step + (d - step) < 64
              → (d - step) % step ≡ 0
              → d - step < fuel
              → Elem (shard + step + (d - step)) (shard_ids_from fuel (shard + step) step))
          → Elem (shard + d) (shard_ids_from fuel (shard + step) step)
      later k go =
          subst (λ n. Elem n (shard_ids_from fuel (shard + step) step)) (omega arith)
            (go (omega arith) (sym (mod-eq-sub-mod k) ∙ m) (omega arith))

-- The workers share the shards out: of a positive number of workers, the worker of an index below that
-- number has exactly the shards below 64 that leave the index as remainder by the number; so each
-- shard belongs to one worker.
pub telegram_worker_shard_ids_iff :
    (worker count s : ℕ)
    → worker < count
    → Elem s (telegram_worker_shard_ids (pos worker) (pos count))
      ↔ ((s < 64) × (s % count ≡ worker))
unfolding telegram_worker_shard_ids
telegram_worker_shard_ids_iff worker count s h =
    elim (Bool-cases (ltb count 1 || leb count worker)) [
      | inl e ↦ absurd (ground (arith, e))
      | inr e ↦ rw e (there, back)
    ]
  where
    there : Elem s (shard_ids_from 64 worker count) → (s < 64) × (s % count ≡ worker)
    there x =
        let r = shard_ids_from_sound count (omega arith) 64 worker s x in
        (r.0, r.1 ∙ mod-eq_of_lt h)

    back : (s < 64) × (s % count ≡ worker) → Elem s (shard_ids_from 64 worker count)
    back (b, m) =
        subst (λ n. Elem n (shard_ids_from 64 worker count)) whole
          (shard_ids_from_complete count (omega arith) 64 worker (s / count * count)
            (omega (arith, whole, b)) (mul-mod_left (s / count) count) (omega (arith, whole, b)))
      where
        whole : worker + s / count * count ≡ s
        whole = omega (arith, div-add-mod' s count, m)
