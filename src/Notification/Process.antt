-- ===== src/Notification/Process.antt =====
-- processNotificationJob: the delivery of a claimed job, and what becomes of it.
use cryptopulse_telegram_bot.Prelude.{
  ℕ, ◌+◌, String, Bool, true, false, not, ◌&&◌, ◌||◌, Option, none, some, ◌∷◌, ◌++◌, leb, ltb, ◌==◌,
  is_some_eq, if◌then◌else◌, ℤ, pos, eqb_ℤ, any,
}
use cryptopulse_telegram_bot.Bytes.{Bytes, bytes}
use cryptopulse_telegram_bot.GoError.{Error, plain, wrapped, job_ownership_lost, is_ownership_lost}
use cryptopulse_telegram_bot.Workers.{
  interval, notification_job_max_attempts, telegram_send_lease_safety_window,
}
use cryptopulse_telegram_bot.Telegram.{text, is_permanent_send_error}
use cryptopulse_telegram_bot.Pricing.{price_age, price_freshness_limit}
use cryptopulse_telegram_bot.Schema.{SubscriberRow, AlertStatus, Db, is_sending, is_price_alert}
use cryptopulse_telegram_bot.Table.{find}
use cryptopulse_telegram_bot.App.{App, safe_telegram_error}
use cryptopulse_telegram_bot.SentFinalization.{finalize, default_sent_finalization_policy}
use cryptopulse_telegram_bot.Session.{
  Env, Outgoing, Act, Try, handle, ◌>>=◌, counting, counting_fail, inc, observed, query,
  acquire_lock, release_lock, send, check_context, bump, db_operations_total, cron_deliveries_total,
  price_alert_deliveries_total, telegram_send_errors_total,
}
use cryptopulse_telegram_bot.Notification.Jobs.{NotificationJob}
use cryptopulse_telegram_bot.Notification.Finish.{
  mark_notification_job_sent_once, mark_notification_job_retry, mark_notification_job_canceled,
  mark_notification_job_failed,
}

-- One action after another.
infixr 20 ◌▸◌
abbrev pub ◌▸◌ : Act (Unit {0}) → Act (Unit {0}) → Act (Unit {0})
(m ▸ k) w = k (m w).1

-- A call whose error is only logged.
abbrev pub logged : Try (Unit {0}) → Act (Unit {0})
logged m w = (tt, (m w).1)

-- observeNotificationDelivery
abbrev pub observe_notification_delivery : NotificationJob → String → Act (Unit {0})
observe_notification_delivery job status = inc (
    if is_price_alert job.kind
    then price_alert_deliveries_total status
    else cron_deliveries_total status)

abbrev pub subscription_of : ℤ → ℕ → Db → Option SubscriberRow
subscription_of chat_id now db = find (λ s. eqb_ℤ s.chat_id chat_id) db.subscribers

-- The answer to a subscription query, with its counter.
unfoldable pub subscription_known : Option SubscriberRow → Try Bool
subscription_known none = counting (db_operations_total "check_subscription" "not_found") false
subscription_known (some s) =
    counting
      (if s.is_subscribed
        then db_operations_total "check_subscription" "active"
        else db_operations_total "check_subscription" "inactive")
      s.is_subscribed

-- isSubscribed
abbrev pub is_subscribed : Env → ℤ → Try Bool
is_subscribed env chat_id = do
  row ← observed "check_subscription" (query env (subscription_of chat_id))
  subscription_known row

abbrev pub is_triggered : AlertStatus → Bool
is_triggered AlertStatus.active = false
is_triggered AlertStatus.triggered = true
is_triggered AlertStatus.canceled = false

abbrev pub alert_triggered : NotificationJob → ℕ → Db → Bool
alert_triggered job now db =
    any (λ a. a.id == job.price_alert_id && eqb_ℤ a.chat_id job.chat_id && is_triggered a.status)
      db.price_alerts

-- notificationEnabled
unfoldable pub notification_enabled : Env → NotificationJob → Try Bool
notification_enabled env job =
    if not (is_price_alert job.kind)
    then is_subscribed env job.chat_id
    else query env (alert_triggered job)

-- claimed_until > NOW() + …, which NULL does not satisfy
abbrev pub lease_reaches : Option ℕ → ℕ → Bool
lease_reaches none t = false
lease_reaches (some until) t = ltb t until

abbrev pub holds_claim : NotificationJob → ℕ → Db → Bool
holds_claim job now db =
    any
      (λ row.
        row.id == job.id
        && is_sending row.status
        && is_some_eq row.claim_token job.claim_token
        && row.attempts == job.attempts
        && lease_reaches row.claimed_until (now + interval (pos telegram_send_lease_safety_window)))
      db.notification_jobs

unfoldable pub claim_checked : Bool → Try (Unit {0})
claim_checked true = counting (db_operations_total "validate_notification_claim" "success") tt
claim_checked false =
    counting_fail (db_operations_total "validate_notification_claim" "stale_claim")
      job_ownership_lost

-- ensureNotificationJobClaimCurrent
unfoldable pub ensure_notification_job_claim_current : Env → NotificationJob → Try (Unit {0})
ensure_notification_job_claim_current env job = do
  current ← observed "validate_notification_claim" (query env (holds_claim job))
  claim_checked current

-- deferNotificationJob
unfoldable pub defer_notification_job : Env → App → NotificationJob → Error → Act (Unit {0})
defer_notification_job env app job e =
    if leb notification_job_max_attempts job.attempts
    then logged (mark_notification_job_failed env app job e false)
      ▸ observe_notification_delivery job "failed_exhausted"
    else logged (mark_notification_job_retry env app job e)
      ▸ observe_notification_delivery job "retry"

-- notificationMessageForDelivery
unfoldable pub notification_message_for_delivery : App → NotificationJob → ℕ → Bytes
unfolding price_age
notification_message_for_delivery app job delivered_at =
    if job.scheduled_at == 0 || leb (price_age delivered_at job.scheduled_at) price_freshness_limit
    then job.text
    else job.text ++ 10 ∷ 10 ∷ text app.messages job.lang "delay_warning"

-- What happens when bot.Send returns an error.
unfoldable pub delivery_failed : Env → App → NotificationJob → Error → Act (Unit {0})
delivery_failed env app job e =
    let safe = safe_telegram_error app e in
    if is_permanent_send_error e
    then logged (mark_notification_job_failed env app job safe true)
      ▸ inc (telegram_send_errors_total "permanent")
      ▸ observe_notification_delivery job "failed_permanent"
    else if leb notification_job_max_attempts job.attempts
    then logged (mark_notification_job_failed env app job safe false)
      ▸ inc (telegram_send_errors_total "exhausted")
      ▸ observe_notification_delivery job "failed_exhausted"
    else logged (mark_notification_job_retry env app job e)
      ▸ inc (telegram_send_errors_total "transient")
      ▸ observe_notification_delivery job "failed_transient"

abbrev final_status : Option Error → String
final_status none = "sent"
final_status (some e) = if is_ownership_lost e then "sent_stale_claim" else "sent_persist_error"

-- What happens when Telegram has confirmed the delivery.
unfoldable pub delivery_confirmed : Env → NotificationJob → Act (Unit {0})
delivery_confirmed env job w =
    let done =
      finalize env default_sent_finalization_policy (mark_notification_job_sent_once env job) w in
    observe_notification_delivery job (final_status done.0.1) done.1

abbrev pub message_of : App → NotificationJob → ℕ → Outgoing
message_of app job delivered_at = record {
  chat_id = job.chat_id;
  text = notification_message_for_delivery app job delivered_at;
  refresh_keyboard = not (is_price_alert job.kind);
  markup = none;
  edited_message = none;
}

unfoldable pub deliver : Env → App → NotificationJob → Act (Unit {0})
deliver env app job w =
    handle (λ message_id. delivery_confirmed env job) (delivery_failed env app job)
      (send env (message_of app job (env.clock w.calls)) (bump w))

unfoldable pub cancel_delivery : Env → NotificationJob → Act (Unit {0})
cancel_delivery env job =
    logged (mark_notification_job_canceled env job) ▸ observe_notification_delivery job "canceled"

-- The claim is no longer the job's, or could not be checked.
unfoldable pub validation_failed : Env → App → NotificationJob → Error → Act (Unit {0})
validation_failed env app job e =
    if is_ownership_lost e
    then observe_notification_delivery job "skipped_stale_claim"
    else defer_notification_job env app job
        (wrapped (bytes "validate notification claim before delivery") e)

-- From the check of the claim on.
unfoldable pub validate_and_deliver : Env → App → NotificationJob → Act (Unit {0})
validate_and_deliver env app job w =
    handle (λ _. deliver env app job) (validation_failed env app job)
      (ensure_notification_job_claim_current env job w)

abbrev pub deliver_if : Env → App → NotificationJob → Bool → Act (Unit {0})
deliver_if env app job true = validate_and_deliver env app job
deliver_if env app job false = cancel_delivery env job

-- With the chat's lock held.
unfoldable pub process_locked : Env → App → NotificationJob → Act (Unit {0})
process_locked env app job w =
    handle (deliver_if env app job)
      (λ e.
        defer_notification_job env app job (wrapped (bytes "check subscription before delivery") e))
      (notification_enabled env job w)

abbrev pub process_unless : Env → App → NotificationJob → Option Bytes → Act (Unit {0})
process_unless env app job (some m) w = logged (mark_notification_job_retry env app job (plain m)) w
process_unless env app job none w =
    handle (λ _. process_locked env app job ▸ release_lock env)
      (λ e. defer_notification_job env app job (wrapped (bytes "acquire telegram chat lock") e))
      (acquire_lock env job.chat_id w)

unfoldable pub process_notification_job : Env → App → NotificationJob → Act (Unit {0})
process_notification_job env app job w =
    process_unless env app job (check_context env w).0 (check_context env w).1
