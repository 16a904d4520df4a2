-- ===== src/Reply/Finish.antt =====
-- The writes that end a claim of a reply: markTelegramReplySentOnce, …Retry and …Failed, each one
-- statement outside a transaction.
use cryptopulse_telegram_bot.Prelude.{String, pos}
use cryptopulse_telegram_bot.GoError.{Error}
use cryptopulse_telegram_bot.Workers.{interval, telegram_retry_delay}
use cryptopulse_telegram_bot.App.{App}
use cryptopulse_telegram_bot.Session.{
  Env, Try, ◌>>=◌, ◌>>◌, counting, observed, autocommit, db_operations_total,
}
use cryptopulse_telegram_bot.Notification.Finish.{ensure_current_job_claim_updated, stored_error}
use cryptopulse_telegram_bot.Reply.Jobs.{
  TelegramReplyJob, Ending, delivered, deferred, given_up, end_claim,
}

unfoldable pub finish : Env → String → TelegramReplyJob → Ending → Try (Unit {0})
finish env operation job ending = do
  affected ← observed operation (autocommit env (end_claim job ending))
  ensure_current_job_claim_updated env operation affected
  counting (db_operations_total operation "success") tt

unfoldable pub mark_telegram_reply_sent_once : Env → TelegramReplyJob → Try (Unit {0})
mark_telegram_reply_sent_once env job = finish env "mark_telegram_reply_sent" job delivered

unfoldable pub mark_telegram_reply_retry : Env → App → TelegramReplyJob → Error → Try (Unit {0})
mark_telegram_reply_retry env app job send_error = finish env "mark_telegram_reply_retry" job (
    deferred (interval (telegram_retry_delay (pos job.attempts) send_error))
      (stored_error app send_error))

unfoldable pub mark_telegram_reply_failed : Env → App → TelegramReplyJob → Error → Try (Unit {0})
mark_telegram_reply_failed env app job send_error =
    finish env "mark_telegram_reply_failed" job (given_up (stored_error app send_error))
