-- ===== src/Examples/Outbox.antt =====
-- The notification outbox at a small database.
use cryptopulse_telegram_bot.Prelude.{ℕ, suc, refl, ◌≢◌, inr, some, [], ◌∷◌, arith, Elem, inl}
use cryptopulse_telegram_bot.Schema.{NotificationRow, Db, JobStatus}
use cryptopulse_telegram_bot.Session.{ok}
use cryptopulse_telegram_bot.Session.Rules.{Interleaved}
use cryptopulse_telegram_bot.Notification.Jobs.{
  NotificationJob, delivered, withdrawn, job_of, claimed, claim_row, end_claim,
}
use cryptopulse_telegram_bot.Notification.Claim.{claim_pending_notification_job}
use cryptopulse_telegram_bot.Outbox.Outcome.{ClaimOutcome}
use cryptopulse_telegram_bot.Notification.Claiming.{
  Claims, claim_pending_notification_job-ClaimOutcome,
}
use cryptopulse_telegram_bot.Notification.Finish.{finish}
use cryptopulse_telegram_bot.Notification.Outcome.{FinishOutcome, finish-FinishOutcome}
use cryptopulse_telegram_bot.Notification.Process.{process_notification_job}
use cryptopulse_telegram_bot.Notification.Moves.{here, next, claim}
use cryptopulse_telegram_bot.Notification.Sending.{
  ProcessOutcome, process_notification_job-ProcessOutcome,
}
use cryptopulse_telegram_bot.Notification.Fencing.{
  Claimed, OneRow, claim_row-Claimed, finish_after_end,
}
use cryptopulse_telegram_bot.Notification.Invariant.{
  WellFormed, process_notification_job-WellFormed, Moves-OneRow,
}
use cryptopulse_telegram_bot.Examples.{
  noon, quiet_env, quiet_env-OthersMove, waiting_row, small_db, world_of, app,
}

claim_example :
    ClaimOutcome Claims quiet_env small_db 0 noon
      (claim_pending_notification_job quiet_env (world_of small_db))
claim_example = claim_pending_notification_job-ClaimOutcome quiet_env (world_of small_db)

-- The job as a worker has claimed it, and the database after the claim.
abbrev token : ℕ
token = 500

abbrev job : NotificationJob
job = job_of token waiting_row

abbrev claimed_row : NotificationRow
claimed_row = claimed token noon waiting_row

abbrev claimed_db : Db
claimed_db = record small_db { notification_jobs = claimed_row ∷ [] }

finish_example :
    FinishOutcome quiet_env job delivered
      (world_of claimed_db)
      (finish quiet_env "mark_notification_sent" job delivered (world_of claimed_db))
finish_example =
    finish-FinishOutcome quiet_env job delivered (world_of claimed_db) "mark_notification_sent"

process_example :
    ProcessOutcome quiet_env app job
      (world_of claimed_db)
      (process_notification_job quiet_env app job (world_of claimed_db)).1
process_example =
    process_notification_job-ProcessOutcome quiet_env app job (world_of claimed_db)
      quiet_env-OthersMove

claimed_db-WellFormed : WellFormed claimed_db
claimed_db-WellFormed = (ground arith, tt)

WellFormed_example :
    WellFormed (process_notification_job quiet_env app job (world_of claimed_db)).1.db
WellFormed_example =
    process_notification_job-WellFormed quiet_env app job (world_of claimed_db) quiet_env-OthersMove
      claimed_db-WellFormed

small_db-Claimed : Claimed job (claim_row 1 token noon small_db).1
small_db-Claimed = claim_row-Claimed waiting_row token noon small_db refl (inr refl, tt)

-- The worker that has marked its job as sent cannot cancel it any more.
abbrev ended_db : Db
ended_db = end_claim job delivered (suc noon) (claim_row 1 token noon small_db).1

id_given : Elem 1 (claim_row 1 token noon small_db).1.job_ids
unfolding claim_row
id_given = inl refl

finish_after_end_example :
    ((finish quiet_env "mark_notification_canceled" job withdrawn (world_of ended_db)).0 ≢ ok tt)
    × Interleaved quiet_env ended_db
        (finish quiet_env "mark_notification_canceled" job withdrawn (world_of ended_db)).1.db
finish_after_end_example =
    finish_after_end quiet_env "mark_notification_canceled" job delivered withdrawn (suc noon)
      (claim_row 1 token noon small_db).1 (world_of ended_db) quiet_env-OthersMove id_given
      small_db-Claimed here

abbrev sent_row : NotificationRow
sent_row = record waiting_row { status = JobStatus.sent; sent_at = some noon }

abbrev sent_db : Db
sent_db = record small_db { notification_jobs = sent_row ∷ [] }

-- A late claim of the row that has been sent.
OneRow_example : OneRow sent_row (claim_row 1 700 noon sent_db).1.notification_jobs
OneRow_example =
    Moves-OneRow sent_row {d = sent_db} {e = (claim_row 1 700 noon sent_db).1} refl (inl refl)
      (inr refl, tt) (next here (claim 1 700 noon))
