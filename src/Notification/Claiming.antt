-- ===== src/Notification/Claiming.antt =====
-- How a claim of the notification outbox can end, whatever the environment does.
use cryptopulse_telegram_bot.Prelude.{
  ℕ, ◌+◌, ◌*◌, Elem, ◌≡◌, refl, Bool, true, ◌&&◌, ◌==◌, ==_iff, Option, none, some, arith,
}
use cryptopulse_telegram_bot.Schema.{NotificationRow, Db, JobStatus}
use cryptopulse_telegram_bot.Workers.{second}
use cryptopulse_telegram_bot.Outbox.Eligible.{Eligible, claimable-Eligible}
use cryptopulse_telegram_bot.Table.{find, update}
use cryptopulse_telegram_bot.Table.Laws.{find_holds, Elem-find}
use cryptopulse_telegram_bot.Session.{Env, World}
use cryptopulse_telegram_bot.Notification.Jobs.{
  NotificationJob, is_candidate, claimable, claim_row, returned, or_zero,
}
use cryptopulse_telegram_bot.Outbox.Outcome.{ClaimOutcome, claim_pending-ClaimOutcome}
use cryptopulse_telegram_bot.Notification.Claim.{
  notification_outbox, claim_pending_notification_job,
}

-- A job is claimed with a token at a time in a database `before`, and the claim leads to `after`: the
-- row stands in the table and may be claimed; the job is read from it, with one attempt more; and of the
-- database only the rows with this id that may be claimed are changed, to being sent, with one attempt
-- more, the token and a lease of 45 seconds.
pub record Claims (token now : ℕ) (before after : Db) (job : NotificationJob) : Type 0 where
  pub row : NotificationRow
  pub stands : Elem row before.notification_jobs
  pub found : find (is_candidate row.id now) before.notification_jobs ≡ some row
  pub eligible : Eligible row.status row.next_attempt_at row.claimed_until now
  pub read : job ≡ record {
    kind = row.kind;
    price_alert_id = or_zero row.price_alert_id;
    id = row.id;
    chat_id = row.chat_id;
    lang = row.language_code;
    text = row.message_text;
    claim_token = token;
    scheduled_at = row.scheduled_at;
    attempts = row.attempts + 1;
  }
  pub written : after ≡ record before {
    notification_jobs =
        update
          (is_candidate row.id now)
          (λ r. record r {
            status = JobStatus.sending;
            attempts = r.attempts + 1;
            claim_token = some token;
            claimed_until = some (now + 45 * second);
            updated_at = now;
          })
          before.notification_jobs;
  }

and_cases : (a b : Bool) → (a && b) ≡ true → (a ≡ true) × (b ≡ true)
and_cases a b h = ground arith

-- The job that the UPDATE returns belongs to the candidate's row.
claim_row-Claims :
    (id token now : ℕ) (before : Db) (job : NotificationJob)
    → (claim_row id token now before).0 ≡ some job
    → Claims token now before (claim_row id token now before).1 job
unfolding claim_row
claim_row-Claims id token now before job h =
    by_row (find (is_candidate id now) before.notification_jobs) refl h
  where
    by_row :
        (o : Option NotificationRow)
        → find (is_candidate id now) before.notification_jobs ≡ o
        → returned token o ≡ some job
        → Claims token now before (claim_row id token now before).1 job
    by_row none e k = cc
    by_row (some row) e k =
        let holds =
          and_cases (row.id == id) (claimable now row)
            (find_holds (is_candidate id now) before.notification_jobs row e) in
        let same : row.id ≡ id = (==_iff row.id id).0 holds.0 in
        record {
          row = row;
          stands = Elem-find (is_candidate id now) before.notification_jobs row e;
          found = simp same e;
          eligible =
              claimable-Eligible row.status row.next_attempt_at row.claimed_until now holds.1;
          read = cc;
          written = simp same;
        }

-- Whatever the other sessions, the locks and the failures are: a claim returns a job only by giving a
-- row of the table, the first one with its id that may be claimed, a token that is made by uuid at a call
-- of this claim, one attempt more and a lease of 45 seconds in a database that other sessions left, and
-- the job is this row's. It may be claimed if its next attempt is due and it is pending, or it is being
-- sent and its lease is over. The claim returns none or fails without writing anything of its own,
-- save that such a claim may have been committed though its confirmation was lost.
pub claim_pending_notification_job-ClaimOutcome :
    (env : Env) (w : World)
    → ClaimOutcome Claims env w.db w.calls
        (env.clock w.calls)
        (claim_pending_notification_job env w)
unfolding claim_pending_notification_job
claim_pending_notification_job-ClaimOutcome env w =
    claim_pending-ClaimOutcome notification_outbox Claims claim_row-Claims env w.db w.calls w
      (omega arith) refl
