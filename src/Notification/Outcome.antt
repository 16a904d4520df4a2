-- ===== src/Notification/Outcome.antt =====
-- How a transaction that ends a claim can end, whatever the environment does.
use cryptopulse_telegram_bot.Prelude.{
  ℕ, suc, ◌+◌, ◌<◌, ◌≡◌, refl, ◌⊎◌, inl, inr, String, arith, ◌==◌, Bool-cases, none, some, Elem,
}
use cryptopulse_telegram_bot.Bytes.{Bytes}
use cryptopulse_telegram_bot.GoError.{plain, job_ownership_lost}
use cryptopulse_telegram_bot.Schema.{NotificationRow, JobStatus, Db}
use cryptopulse_telegram_bot.Table.{affected}
use cryptopulse_telegram_bot.Table.Laws.{updated_stands}
use cryptopulse_telegram_bot.Session.{
  Env, World, Result, Try, ok, err, continue, bump, inc, count_error, db_operations_total,
}
use cryptopulse_telegram_bot.Session.Rules.{answered_then, confirmed_then}
use cryptopulse_telegram_bot.Notification.Jobs.{
  NotificationJob, Ending, delivered, deferred, withdrawn, given_up, owns, row_change, finish_row,
  touch_subscriber, end_claim,
}
use cryptopulse_telegram_bot.Notification.Finish.{finish, ensure_current_job_claim_updated}

-- ensureCurrentJobClaimUpdated: the call fails, no row was changed, or some row was.
pub ensure_then :
    {B : Type 0} (P : Result B × World → Type 0) (k : Unit {0} → Try B) (env : Env)
    (operation : String) (n : ℕ) (w : World)
    → ((m : Bytes) → P (err (plain m), count_error operation (bump w)))
    → (n ≡ 0
        → P (
          err job_ownership_lost,
          (inc (db_operations_total operation "stale_claim") (bump w)).1,
        ))
    → (0 < n → P (k tt (bump w)))
    → P (continue k (ensure_current_job_claim_updated env operation n w))
unfolding continue
ensure_then P k env operation n w bad none_left good =
    answered_then (λ r. P (continue k r)) operation _ (env.failure w.calls) (bump w) n (bump w) bad
      (elim (Bool-cases (n == 0)) [
        | inl e ↦ rw e (none_left (ground arith))
        | inr e ↦ rw e (good (ground arith))
      ])

-- What the row of a claim that has ended says of its end.
abbrev pub Tells : Ending → ℕ → NotificationRow → Type 0
Tells delivered now row = (row.status ≡ JobStatus.sent) × (row.sent_at ≡ some now)
Tells (deferred delay error) now row =
    (row.status ≡ JobStatus.pending)
    × (row.next_attempt_at ≡ now + delay)
    × (row.last_error ≡ some error)
Tells withdrawn now row = (row.status ≡ JobStatus.canceled) × (row.canceled_at ≡ some now)
Tells (given_up error permanent) now row =
    (row.status ≡ JobStatus.failed) × (row.failed_at ≡ some now) × (row.last_error ≡ some error)

-- A row of the job has the end of its claim, and no claim.
pub record IsEnded (job : NotificationJob) (ending : Ending) (now : ℕ) (d : Db) : Type 0 where
  pub row : NotificationRow
  pub stands : Elem row d.notification_jobs
  pub same_id : row.id ≡ job.id
  pub unclaimed : (row.claim_token ≡ none) × (row.claimed_until ≡ none)
  pub tells : Tells ending now row

changed-Tells :
    (ending : Ending) (now : ℕ) (row : NotificationRow)
    → let ended = row_change ending now row in
      (ended.id ≡ row.id)
      × ((ended.claim_token ≡ none) × (ended.claimed_until ≡ none))
      × Tells ending now ended
changed-Tells delivered now row = (refl, (refl, refl), (refl, refl))
changed-Tells (deferred delay error) now row = (refl, (refl, refl), (refl, refl, refl))
changed-Tells withdrawn now row = (refl, (refl, refl), (refl, refl))
changed-Tells (given_up error permanent) now row = (refl, (refl, refl), (refl, refl, refl))

end_claim-IsEnded :
    (job : NotificationJob) (ending : Ending) (now : ℕ) (d : Db)
    → 0 < affected (owns job) d.notification_jobs
    → IsEnded job ending now (end_claim job ending now d)
unfolding end_claim finish_row touch_subscriber
end_claim-IsEnded job ending now d h =
    let (row, i, e, stands) =
      updated_stands (owns job) (row_change ending now) d.notification_jobs h in
    let (same, unclaimed, tells) = changed-Tells ending now row in
    record {
      row = row_change ending now row;
      stands = stands;
      same_id = ground (arith, same, e);
      unclaimed = unclaimed;
      tells = tells;
    }

module _ (env : Env) (job : NotificationJob) (ending : Ending) (w : World) where
  -- The database as the transaction's first statement finds it.
  abbrev pub found : Db
  found = env.others (suc w.calls) w.db

  abbrev pub owned : ℕ
  owned = affected (owns job) found.notification_jobs

  abbrev pub finished : Db
  finished = end_claim job ending (env.clock w.calls) found

  pub data Ends (r : Result (Unit {0}) × World) : Type 0 where
    done : r.0 ≡ ok tt → 0 < owned → r.1.db ≡ finished → Ends r
    stale : r.0 ≡ err job_ownership_lost → owned ≡ 0 → r.1.db ≡ found → Ends r
    broken : (m : Bytes) → r.0 ≡ err (plain m) → (r.1.db ≡ w.db) ⊎ (r.1.db ≡ found) → Ends r
    lost : (m : Bytes) → r.0 ≡ err (plain m) → 0 < owned → r.1.db ≡ finished → Ends r

  pub record FinishOutcome (r : Result (Unit {0}) × World) : Type 0 where
    pub ends : Ends r
    pub written : 0 < owned → IsEnded job ending (env.clock w.calls) finished
    pub outbox_kept : r.1.outbox ≡ w.outbox
    pub held_kept : r.1.held ≡ w.held

  outcome :
      {r : Result (Unit {0}) × World}
      → Ends r
      → r.1.outbox ≡ w.outbox
      → r.1.held ≡ w.held
      → FinishOutcome r
  outcome e o h = record {
    ends = e;
    written = end_claim-IsEnded job ending (env.clock w.calls) found;
    outbox_kept = o;
    held_kept = h;
  }

  -- A transaction that ends a claim has one of four outcomes, and neither sends nor touches a lock: it
  -- has written the end of the claim (its status, its time or next attempt, its error, and that nobody
  -- claims it any more) to the row that the job owned; or no row was the job's, which it
  -- reports as the loss of ownership and nothing is written; or a call failed and nothing is written;
  -- or the end is written though the confirmation of the commit was lost, which it reports as an error.
  pub finish-FinishOutcome :
      (operation : String) → FinishOutcome (finish env operation job ending w)
  unfolding finish end_claim
  finish-FinishOutcome operation =
      answered_then FinishOutcome operation _ _ _ _ _
        (λ m. outcome (broken m refl (inl refl)) refl refl)
        (answered_then FinishOutcome operation _ _ _ _ _
          (λ m. outcome (broken m refl (inr refl)) refl refl)
          (ensure_then FinishOutcome _ env operation owned _
            (λ m. outcome (broken m refl (inr refl)) refl refl)
            (λ e. outcome (stale refl e refl) refl refl)
            (λ e.
              answered_then FinishOutcome operation _ _ _ _ _
                (λ m. outcome (broken m refl (inr refl)) refl refl)
                (confirmed_then FinishOutcome operation _ _ _ _ _
                  (λ m. outcome (broken m refl (inr refl)) refl refl)
                  (λ m. outcome (lost m refl e refl) refl refl)
                  (outcome (done refl e refl) refl refl)))))
