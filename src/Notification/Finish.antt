-- ===== src/Notification/Finish.antt =====
-- The writes that end a claim: markNotificationJobSentOnce, …Retry, …Canceled and …Failed, each one
-- transaction over the job's row and its subscriber.
use cryptopulse_telegram_bot.Prelude.{ℕ, String, Bool, ◌==◌, if◌then◌else◌, pos}
use cryptopulse_telegram_bot.Bytes.{Bytes}
use cryptopulse_telegram_bot.GoError.{Error, job_ownership_lost, error_text}
use cryptopulse_telegram_bot.Workers.{interval, truncate_error, telegram_retry_delay}
use cryptopulse_telegram_bot.App.{App, safe_telegram_error}
use cryptopulse_telegram_bot.Session.{
  Env, Try, ◌>>=◌, ◌>>◌, return, counting, counting_fail, observed, begin, statement, further,
  rows_affected, commit, db_operations_total,
}
use cryptopulse_telegram_bot.Notification.Jobs.{
  NotificationJob, Ending, delivered, deferred, withdrawn, given_up, row_change, subscriber_change,
  finish_row, touch_subscriber,
}

-- ensureCurrentJobClaimUpdated
abbrev pub ensure_current_job_claim_updated : Env → String → ℕ → Try (Unit {0})
ensure_current_job_claim_updated env operation affected = do
  n ← observed operation (rows_affected env affected)
  if n == 0
      then counting_fail (db_operations_total operation "stale_claim") job_ownership_lost
      else return tt

-- The transaction that the four writes share.
unfoldable pub finish : Env → String → NotificationJob → Ending → Try (Unit {0})
finish env operation job ending = do
  observed operation (begin env)
  affected ← observed operation (statement env (finish_row job (row_change ending)))
  ensure_current_job_claim_updated env operation affected
  observed operation (further env (touch_subscriber job (subscriber_change job ending)))
  observed operation (commit env)
  counting (db_operations_total operation "success") tt

unfoldable pub mark_notification_job_sent_once : Env → NotificationJob → Try (Unit {0})
mark_notification_job_sent_once env job = finish env "mark_notification_sent" job delivered

-- last_error: the redacted text of the error, cut to 500 bytes.
abbrev pub stored_error : App → Error → Bytes
stored_error app e = truncate_error (error_text (safe_telegram_error app e)) (pos 500)

unfoldable pub mark_notification_job_retry : Env → App → NotificationJob → Error → Try (Unit {0})
mark_notification_job_retry env app job send_error = finish env "mark_notification_retry" job (
    deferred (interval (telegram_retry_delay (pos job.attempts) send_error))
      (stored_error app send_error))

unfoldable pub mark_notification_job_canceled : Env → NotificationJob → Try (Unit {0})
mark_notification_job_canceled env job = finish env "mark_notification_canceled" job withdrawn

unfoldable pub mark_notification_job_failed :
    Env → App → NotificationJob → Error → Bool → Try (Unit {0})
mark_notification_job_failed env app job send_error permanent =
    finish env "mark_notification_failed" job (given_up (stored_error app send_error) permanent)
