-- ===== src/Inbox/Finish.antt =====
-- markTelegramUpdateRetry, markTelegramUpdateFailed and markTelegramUpdateProcessingError: what becomes
-- of an update whose processing fails.
use cryptopulse_telegram_bot.Prelude.{String, leb, if◌then◌else◌, pos}
use cryptopulse_telegram_bot.Bytes.{Bytes}
use cryptopulse_telegram_bot.GoError.{Error, error_text}
use cryptopulse_telegram_bot.Workers.{
  interval, retry_delay, truncate_error, telegram_update_max_attempts,
}
use cryptopulse_telegram_bot.Session.{
  Env, Act, Try, ◌>>=◌, ◌>>◌, inc, counting, observed, autocommit, db_operations_total,
  webhook_updates_total,
}
use cryptopulse_telegram_bot.Notification.Finish.{ensure_current_job_claim_updated}
use cryptopulse_telegram_bot.Notification.Process.{◌▸◌, logged}
use cryptopulse_telegram_bot.Inbox.Jobs.{TelegramUpdateJob, Ending, deferred, given_up, end_claim}

unfoldable pub finish : Env → String → TelegramUpdateJob → Ending → Try (Unit {0})
finish env operation job ending = do
  affected ← observed operation (autocommit env (end_claim job ending))
  ensure_current_job_claim_updated env operation affected
  counting (db_operations_total operation "success") tt

abbrev pub stored_error : Error → Bytes
stored_error e = truncate_error (error_text e) (pos 500)

unfoldable pub mark_telegram_update_retry : Env → TelegramUpdateJob → Error → Try (Unit {0})
mark_telegram_update_retry env job e =
    finish env "mark_telegram_update_retry" job
      (deferred (interval (retry_delay (pos job.attempts))) (stored_error e))

unfoldable pub mark_telegram_update_failed : Env → TelegramUpdateJob → Error → Try (Unit {0})
mark_telegram_update_failed env job e =
    finish env "mark_telegram_update_failed" job (given_up (stored_error e))

unfoldable pub mark_telegram_update_processing_error :
    Env → TelegramUpdateJob → Error → Act (Unit {0})
mark_telegram_update_processing_error env job e =
    if leb telegram_update_max_attempts job.attempts
    then logged (mark_telegram_update_failed env job e)
      ▸ inc (webhook_updates_total "failed_exhausted")
    else logged (mark_telegram_update_retry env job e) ▸ inc (webhook_updates_total "retry")
