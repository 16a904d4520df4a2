-- ===== src/Reply/Process.antt =====
-- processTelegramReply: the delivery of a claimed reply, and what becomes of it. A row's operation is
-- one of the two that its CHECK constraint admits.
use cryptopulse_telegram_bot.Prelude.{
  ℕ, ◌+◌, String, Bool, true, false, ◌&&◌, Option, none, some, [], ◌∷◌, leb, ◌==◌, is_some_eq,
  if◌then◌else◌, pos, any,
}
use cryptopulse_telegram_bot.Bytes.{Bytes, bytes, contains, to_lower}
use cryptopulse_telegram_bot.GoError.{
  Error, plain, wrapped, job_ownership_lost, is_ownership_lost, error_text,
}
use cryptopulse_telegram_bot.Workers.{
  interval, telegram_reply_max_attempts, telegram_send_lease_safety_window,
}
use cryptopulse_telegram_bot.Telegram.{is_permanent_send_error}
use cryptopulse_telegram_bot.Schema.{Db, ReplyOperation, send_message, edit_message, is_sending}
use cryptopulse_telegram_bot.App.{App, safe_telegram_error}
use cryptopulse_telegram_bot.SentFinalization.{finalize, default_sent_finalization_policy}
use cryptopulse_telegram_bot.Session.{
  Env, Outgoing, Act, Try, handle, ◌>>=◌, counting, counting_fail, inc, fail, observed, query,
  acquire_lock, release_lock, send, db_operations_total, telegram_replies_total,
  telegram_send_errors_total,
}
use cryptopulse_telegram_bot.Notification.Process.{◌▸◌, logged, lease_reaches}
use cryptopulse_telegram_bot.Reply.Jobs.{TelegramReplyJob}
use cryptopulse_telegram_bot.Reply.Finish.{
  mark_telegram_reply_sent_once, mark_telegram_reply_retry, mark_telegram_reply_failed,
}

abbrev pub holds_claim : TelegramReplyJob → ℕ → Db → Bool
holds_claim job now db =
    any
      (λ row.
        row.id == job.id
        && is_sending row.status
        && is_some_eq row.claim_token job.claim_token
        && row.attempts == job.attempts
        && lease_reaches row.claimed_until (now + interval (pos telegram_send_lease_safety_window)))
      db.telegram_replies

unfoldable pub claim_checked : Bool → Try (Unit {0})
claim_checked true = counting (db_operations_total "validate_telegram_reply_claim" "success") tt
claim_checked false =
    counting_fail (db_operations_total "validate_telegram_reply_claim" "stale_claim")
      job_ownership_lost

-- ensureTelegramReplyClaimCurrent
unfoldable pub ensure_telegram_reply_claim_current : Env → TelegramReplyJob → Try (Unit {0})
ensure_telegram_reply_claim_current env job = do
  current ← observed "validate_telegram_reply_claim" (query env (holds_claim job))
  claim_checked current

-- deferTelegramReply
unfoldable pub defer_telegram_reply : Env → App → TelegramReplyJob → Error → Act (Unit {0})
defer_telegram_reply env app job e =
    if leb telegram_reply_max_attempts job.attempts
    then logged (mark_telegram_reply_failed env app job (safe_telegram_error app e))
    else logged (mark_telegram_reply_retry env app job e)

abbrev pub is_edit : ReplyOperation → Bool
is_edit send_message = false
is_edit edit_message = true

abbrev pub edited_of : TelegramReplyJob → ReplyOperation → Option ℕ
edited_of job send_message = none
edited_of job edit_message = some job.message_id

abbrev pub message_of : TelegramReplyJob → Option Bytes → Outgoing
message_of job markup = record {
  chat_id = job.chat_id;
  text = job.text;
  refresh_keyboard = false;
  markup = markup;
  edited_message = edited_of job job.operation;
}

-- The stored keyboard, when there is one: NULL and the empty text are none.
abbrev pub stored_markup : Option Bytes → Option Bytes
stored_markup none = none
stored_markup (some m) = if is_empty m then none else some m
  where
    is_empty : Bytes → Bool
    is_empty [] = true
    is_empty (c ∷ cs) = false

unfoldable pub send_decoded : Env → TelegramReplyJob → Option Bytes → Option Bytes → Try ℕ
send_decoded env job markup (some m) =
    fail (wrapped (bytes "decode Telegram reply markup") (plain m))
send_decoded env job markup none = send env (message_of job markup)

abbrev pub markup_failure : Env → Option Bytes → Option Bytes
markup_failure env none = none
markup_failure env (some m) = env.markup_error m

-- sendTelegramReply
unfoldable pub send_telegram_reply : Env → TelegramReplyJob → Try ℕ
send_telegram_reply env job =
    let markup = stored_markup job.reply_markup in
    send_decoded env job markup (markup_failure env markup)

-- isTelegramMessageNotModified of an error that is not nil
unfoldable pub is_telegram_message_not_modified : Error → Bool
is_telegram_message_not_modified e =
    contains (to_lower (error_text e)) (bytes "message is not modified")

abbrev final_status : Option Error → String
final_status none = "sent"
final_status (some e) = if is_ownership_lost e then "sent_stale_claim" else "sent_persist_error"

-- What happens when Telegram has confirmed the delivery.
unfoldable pub delivery_confirmed : Env → TelegramReplyJob → Act (Unit {0})
delivery_confirmed env job w =
    let done =
      finalize env default_sent_finalization_policy (mark_telegram_reply_sent_once env job) w in
    inc (telegram_replies_total (final_status done.0.1)) done.1

-- What happens when sending fails for good or for now.
unfoldable pub delivery_failed : Env → App → TelegramReplyJob → Error → Act (Unit {0})
delivery_failed env app job e =
    let safe = safe_telegram_error app e in
    if is_permanent_send_error e
    then logged (mark_telegram_reply_failed env app job safe)
      ▸ inc (telegram_send_errors_total "interactive_permanent")
      ▸ inc (telegram_replies_total "failed_permanent")
    else if leb telegram_reply_max_attempts job.attempts
    then logged (mark_telegram_reply_failed env app job safe)
      ▸ inc (telegram_send_errors_total "interactive_exhausted")
      ▸ inc (telegram_replies_total "failed_exhausted")
    else logged (mark_telegram_reply_retry env app job e)
      ▸ inc (telegram_send_errors_total "interactive_transient")
      ▸ inc (telegram_replies_total "failed_transient")

-- An edit that changes nothing counts as a delivery.
unfoldable pub delivery_answered : Env → App → TelegramReplyJob → Error → Act (Unit {0})
delivery_answered env app job e =
    if is_edit job.operation && is_telegram_message_not_modified e
    then delivery_confirmed env job
    else delivery_failed env app job e

unfoldable pub deliver : Env → App → TelegramReplyJob → Act (Unit {0})
deliver env app job w =
    handle (λ message_id. delivery_confirmed env job) (delivery_answered env app job)
      (send_telegram_reply env job w)

-- The claim is no longer the job's, or could not be checked.
unfoldable pub validation_failed : Env → App → TelegramReplyJob → Error → Act (Unit {0})
validation_failed env app job e =
    if is_ownership_lost e
    then inc (telegram_replies_total "skipped_stale_claim")
    else defer_telegram_reply env app job
        (wrapped (bytes "validate Telegram reply claim before delivery") e)

-- With the chat's lock held.
unfoldable pub process_locked : Env → App → TelegramReplyJob → Act (Unit {0})
process_locked env app job w =
    handle (λ _. deliver env app job) (validation_failed env app job)
      (ensure_telegram_reply_claim_current env job w)

unfoldable pub process_telegram_reply : Env → App → TelegramReplyJob → Act (Unit {0})
process_telegram_reply env app job w =
    handle (λ _. process_locked env app job ▸ release_lock env)
      (λ e. defer_telegram_reply env app job (wrapped (bytes "acquire telegram chat lock") e))
      (acquire_lock env job.chat_id w)
