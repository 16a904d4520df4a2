-- ===== src/Inbox/Claiming.antt =====
-- How a claim of an update can end, whatever the environment does.
use cryptopulse_telegram_bot.Prelude.{
  ℕ, ◌+◌, ◌*◌, ◌≤◌, ◌<◌, ◌⊎◌, inl, inr, sym, ltb, ◌==◌, ==_iff, Bool-cases, eqb_ℤ_iff, ◌≡◌, refl,
  subst, Bool, true, false, not, ◌&&◌, Option, none, some, List, [], ◌∷◌, arith, any, Elem, All,
}
use cryptopulse_telegram_bot.Bytes.{Bytes}
use cryptopulse_telegram_bot.GoError.{plain}
use cryptopulse_telegram_bot.Schema.{UpdateRow, Db, UpdateStatus}
use cryptopulse_telegram_bot.Workers.{second}
use cryptopulse_telegram_bot.Table.{update}
use cryptopulse_telegram_bot.Outbox.Eligible.{UpdateEligible, claimable-UpdateEligible}
use cryptopulse_telegram_bot.Table.Laws.{All-order_by, All-select-Elem, any_holds, any_none}
use cryptopulse_telegram_bot.Session.{Env, World, Result, ok, err}
use cryptopulse_telegram_bot.Session.Rules.{answered_then, confirmed_then, Interleaved, start, more}
use cryptopulse_telegram_bot.Inbox.Jobs.{
  TelegramUpdateJob, is_earlier, precedes, claimable, first_of, next_update, claim_update,
  claim_next,
}
use cryptopulse_telegram_bot.Inbox.Claim.{claim_operation, commit_claim, claim_in_shards}

-- An update is claimed at a time in a database `before`, and this leads to `after`: its row stands in the
-- table, in one of the worker's shards, and may be claimed, and no earlier update of its chat is open; the
-- job is read from it, with one attempt more; and of the database only the rows with this id are
-- changed, to being processed, with one attempt more and a lease of 45 seconds.
pub record Claims (shards : List ℕ) (now : ℕ) (before after : Db) (job : TelegramUpdateJob)
    : Type 0 where
  pub row : UpdateRow
  pub stands : Elem row before.telegram_updates
  pub in_shards : Elem row.shard_id shards
  pub eligible : UpdateEligible row.status row.next_attempt_at row.claimed_until now
  pub was_first :
      (other : UpdateRow)
      → Elem other before.telegram_updates
      → other.chat_id ≡ row.chat_id
      → (other.status ≡ UpdateStatus.pending) ⊎ (other.status ≡ UpdateStatus.processing)
      → (row.stream_epoch < other.stream_epoch)
        ⊎ ((row.stream_epoch ≡ other.stream_epoch) × (row.update_id ≤ other.update_id))
  pub read : job ≡ record {
    update_id = row.update_id;
    stream_epoch = row.stream_epoch;
    chat_id = row.chat_id;
    payload = row.payload;
    attempts = row.attempts + 1;
  }
  pub written : after ≡ record before {
    telegram_updates =
        update
          (λ r. r.update_id == row.update_id)
          (λ r. record r {
            status = UpdateStatus.processing;
            attempts = r.attempts + 1;
            claimed_until = some (now + 45 * second);
            updated_at = now;
          })
          before.telegram_updates;
  }

after_it :
    (row other : UpdateRow)
    → precedes other row ≡ false
    → (row.stream_epoch < other.stream_epoch)
      ⊎ ((row.stream_epoch ≡ other.stream_epoch) × (row.update_id ≤ other.update_id))
after_it row other h = elim (Bool-cases (ltb row.stream_epoch other.stream_epoch)) [
  | inl e ↦ inl (ground (arith, e))
  | inr e ↦ inr (ground (arith, e, h), ground (arith, e, h))
]

none_earlier :
    (row other : UpdateRow)
    → is_earlier row other ≡ false
    → other.chat_id ≡ row.chat_id
    → (other.status ≡ UpdateStatus.pending) ⊎ (other.status ≡ UpdateStatus.processing)
    → (row.stream_epoch < other.stream_epoch)
      ⊎ ((row.stream_epoch ≡ other.stream_epoch) × (row.update_id ≤ other.update_id))
none_earlier row other h same (inl p) =
    after_it row other (ground (arith, h, p, (eqb_ℤ_iff other.chat_id row.chat_id).1 same))
none_earlier row other h same (inr p) =
    after_it row other (ground (arith, h, p, (eqb_ℤ_iff other.chat_id row.chat_id).1 same))

first_of_All :
    (P : UpdateRow → Type 0) (rows : List UpdateRow) (row : UpdateRow)
    → All P rows
    → first_of rows ≡ some row
    → P row
first_of_All P [] row h e = cc
first_of_All P (x ∷ rows) row h e = subst P (found e) h.0
  where
    found : some x ≡ some row → x ≡ row
    found e = cc

and_left : (a b : Bool) → (a && b) ≡ true → a ≡ true
and_left a b h = ground arith

next_update_sound :
    (locked : ℕ → Bool) (shards : List ℕ) (now : ℕ) (d : Db) (row : UpdateRow)
    → next_update locked shards now d ≡ some row
    → Elem row d.telegram_updates × (claimable shards now d.telegram_updates row ≡ true)
unfolding next_update
next_update_sound locked shards now d row h =
    let (held, e) =
      first_of_All P _ row (All-order_by _ P _ (All-select-Elem fits d.telegram_updates)) h in
    (e, and_left _ _ held)
  where
    fits : UpdateRow → Bool
    fits r = claimable shards now d.telegram_updates r && not (locked r.update_id)

    P : UpdateRow → Type 0
    P r = (fits r ≡ true) × Elem r d.telegram_updates

module _ (env : Env) (shards : List ℕ) (d : Db) (now : ℕ) where
  pub data ClaimOutcome (r : Result (Option TelegramUpdateJob) × World) : Type 0 where
    nothing : r.0 ≡ ok none → Interleaved env d r.1.db → ClaimOutcome r
    claims :
        (job : TelegramUpdateJob) (before : Db)
        → r.0 ≡ ok (some job)
        → Interleaved env d before
        → Claims shards now before r.1.db job
        → ClaimOutcome r
    broken : (m : Bytes) → r.0 ≡ err (plain m) → Interleaved env d r.1.db → ClaimOutcome r
    lost :
        (m : Bytes) (job : TelegramUpdateJob) (before : Db)
        → r.0 ≡ err (plain m)
        → Interleaved env d before
        → Claims shards now before r.1.db job
        → ClaimOutcome r

module _ (shards : List ℕ) where
  -- The UPDATE … RETURNING of the selected row.
  claim_update-Claims :
      (o : Option UpdateRow) (t : ℕ) (before : Db) (job : TelegramUpdateJob)
      → ((row : UpdateRow)
          → o ≡ some row
          → Elem row before.telegram_updates
            × (claimable shards t before.telegram_updates row ≡ true))
      → (claim_update o t before).0 ≡ some job
      → Claims shards t before (claim_update o t before).1 job
  claim_update-Claims none t before job sound h = cc
  claim_update-Claims (some row) t before job sound h =
      let (e, c) = sound row refl in
      record {
        row = row;
        stands = e;
        in_shards = in_shards row (ground (arith, c));
        eligible =
            claimable-UpdateEligible row.status row.next_attempt_at row.claimed_until t
              (ground (arith, c));
        was_first = λ other i chat o.
            none_earlier row other
              (any_none (is_earlier row) before.telegram_updates other (ground (arith, c)) i) chat
              o;
        read = cc;
        written = refl;
      }
    where
      in_shards :
          (row : UpdateRow)
          → any (λ shard. row.shard_id == shard) shards ≡ true
          → Elem row.shard_id shards
      in_shards row h =
          let (shard, i, e) = any_holds (λ shard. row.shard_id == shard) shards h in
          subst (λ n. Elem n shards) (sym ((==_iff row.shard_id shard).0 e)) i

module _ (env : Env) (shards : List ℕ) (d : Db) where
  commit_claim-ClaimOutcome :
      (o : Option TelegramUpdateJob) (before : Db) (w : World)
      → Interleaved env d before
      → ((job : TelegramUpdateJob) → o ≡ some job → Claims shards w.tx_now before w.view job)
      → Interleaved env d w.db
      → ClaimOutcome env shards d w.tx_now (commit_claim env o w)
  unfolding commit_claim
  commit_claim-ClaimOutcome none before w i c j = nothing refl j
  commit_claim-ClaimOutcome (some job) before w i c j =
      confirmed_then (ClaimOutcome env shards d w.tx_now) claim_operation _ _ _ _ _
        (λ m. broken m refl j) (λ m. lost m job before refl i (c job refl))
        (claims job before refl i (c job refl))

-- Whatever the other sessions and the failures are: a claim returns an update only by giving a row of
-- the table, of one of the worker's shards, one attempt more and a lease of 45 seconds in a database that
-- other sessions left, and the job is this row's. It may be claimed if its next attempt is due, it is
-- pending, or it is being processed and its lease is over, and every open update of its chat is not
-- before it (by epoch and id). The claim returns none or fails without writing anything of its own, save
-- that such a claim may have been committed though its confirmation was lost.
pub claim_in_shards-ClaimOutcome :
    (env : Env) (shards : List ℕ) (w : World)
    → ClaimOutcome env shards w.db (env.clock w.calls) (claim_in_shards env shards w)
unfolding claim_in_shards claim_next
claim_in_shards-ClaimOutcome env [] w = nothing refl start
claim_in_shards-ClaimOutcome env (shard ∷ shards) w =
    answered_then Goal claim_operation _ _ _ _ _ (λ m. broken m refl start)
      (answered_then Goal claim_operation _ _ _ _ _ (λ m. broken m refl (more _ start))
        (commit_claim-ClaimOutcome env (shard ∷ shards) w.db _ _ _ (more _ start)
          (λ job e.
            claim_update-Claims (shard ∷ shards) _ _ _ job
              (next_update_sound _ (shard ∷ shards) _ _) e)
          (more _ start)))
  where
    Goal : Result (Option TelegramUpdateJob) × World → Type 0
    Goal = ClaimOutcome env (shard ∷ shards) w.db (env.clock w.calls)
