-- ===== src/Notification/Claim.antt =====
-- claimPendingNotificationJob: the claim of Outbox with the SQL of the notification outbox.
use cryptopulse_telegram_bot.Prelude.{Option}
use cryptopulse_telegram_bot.Session.{Env, Try}
use cryptopulse_telegram_bot.Outbox.{Outbox, claim_pending}
use cryptopulse_telegram_bot.Notification.Jobs.{NotificationJob, candidates, claim_row}

abbrev pub notification_outbox : Outbox NotificationJob
notification_outbox = record {
  operation = "claim_notification_job";
  candidates = candidates;
  claim_row = claim_row;
}

unfoldable pub claim_pending_notification_job : Env → Try (Option NotificationJob)
claim_pending_notification_job env = claim_pending notification_outbox env
