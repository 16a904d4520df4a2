-- ===== src/Polling.antt =====
-- The polling loops of the workers: alertWorker (internal/app/notification_outbox.go), replyWorker
-- (internal/app/telegram_reply_outbox.go) and updateWorkerPartition (internal/app/telegram_inbox.go).
pub mod Locked
pub mod Delivers
pub mod Wanted
pub mod Sends
use cryptopulse_telegram_bot.Prelude.{ℕ, zero, suc, Bool, true, false, Option, none, some, ℤ}
use cryptopulse_telegram_bot.Bytes.{Bytes}
use cryptopulse_telegram_bot.GoError.{Error}
use cryptopulse_telegram_bot.App.{App}
use cryptopulse_telegram_bot.Session.{Env, World, Act, Try, handle, unless_done, check_context}
use cryptopulse_telegram_bot.Notification.Claim.{claim_pending_notification_job}
use cryptopulse_telegram_bot.Notification.Process.{process_notification_job}
use cryptopulse_telegram_bot.Reply.Process.{process_telegram_reply}
use cryptopulse_telegram_bot.Reply.Jobs.{claim_pending_telegram_reply}
use cryptopulse_telegram_bot.Inbox.Claim.{claim_pending_telegram_update_for_worker}
use cryptopulse_telegram_bot.Inbox.Process.{process_telegram_update_job}

-- How a loop is left: by the end of its context, or because the rounds that are looked at are over.
pub data Exit : Type 0 where
  canceled rounds_over : Exit

module _ {Job : Type 0} (env : Env) (claim : Try (Option Job))
    (process : Job → Act (Unit {0})) where
  -- The wait for the ticker or for the end of the context
  abbrev pub wait_for_tick : Act Exit → Act Exit
  wait_for_tick next w =
      unless_done (check_context env w).0 (λ m. canceled) next (check_context env w).1

  -- After an error ctx.Err() is asked first.
  abbrev pub claim_error : Act Exit → Error → Act Exit
  claim_error next e w =
      unless_done (check_context env w).0 (λ m. canceled) (wait_for_tick next)
        (check_context env w).1

  unfoldable pub claim_done : Act Exit → Option Job → Act Exit
  claim_done next none w = wait_for_tick next w
  claim_done next (some job) w = next (process job w).1

  unfoldable pub poll : ℕ → Act Exit
  poll zero w = (rounds_over, w)
  poll (suc rounds) w = handle (claim_done (poll rounds)) (claim_error (poll rounds)) (claim w)

unfoldable pub alert_worker : Env → App → ℕ → Act Exit
alert_worker env app =
    poll env (claim_pending_notification_job env) (process_notification_job env app)

unfoldable pub reply_worker : Env → App → ℕ → Act Exit
reply_worker env app = poll env (claim_pending_telegram_reply env) (process_telegram_reply env app)

unfoldable pub update_worker_partition : Env → App → ℤ → ℤ → ℕ → Act Exit
update_worker_partition env app worker_id worker_count =
    poll env (claim_pending_telegram_update_for_worker env worker_id worker_count)
      (process_telegram_update_job env app)
