-- ===== src/Reply/Sending.antt =====
-- What a worker does with a claimed reply, whatever the environment does.
use cryptopulse_telegram_bot.Prelude.{ℕ, suc, ◌≡◌, Bool, true, false, List, ◌∷◌, ℤ, ◌⊎◌}
use cryptopulse_telegram_bot.Bytes.{Bytes}
use cryptopulse_telegram_bot.Schema.{Db}
use cryptopulse_telegram_bot.App.{App}
use cryptopulse_telegram_bot.Session.{Env, World, Outgoing, Result, ok, err}
use cryptopulse_telegram_bot.Session.Steps.{Steps, OthersStep, Keeps}
use cryptopulse_telegram_bot.Reply.Jobs.{TelegramReplyJob}
use cryptopulse_telegram_bot.Reply.Moves.{Move}
use cryptopulse_telegram_bot.Reply.Message.{HoldsClaim, IsMessage}
use cryptopulse_telegram_bot.Reply.Process.{message_of, stored_markup}

-- One message has been added. The call with the number `first` asked whether the claim is still held at
-- its time, in the database that the other sessions then left, and it was.
pub record Speaks (env : Env) (job : TelegramReplyJob) (first : ℕ) (d : Db) (locks : List ℤ)
    (before : List (Outgoing × List ℤ)) (v : World) : Type 0 where
  pub message : Outgoing
  pub current : HoldsClaim job (env.clock first) (env.others first d)
  pub is_message : IsMessage job message
  pub grown : v.outbox ≡ (message, locks) ∷ before

-- The messages that a handler adds: none, or one, under the lock of the job's chat.
pub data Sends (env : Env) (job : TelegramReplyJob) (w v : World) : Type 0 where
  silent : v.outbox ≡ w.outbox → Sends env job w v
  spoke : Speaks env job (suc w.calls) w.db (job.chat_id ∷ w.held) w.outbox v → Sends env job w v

pub record ProcessOutcome (env : Env) (job : TelegramReplyJob) (w v : World) : Type 0 where
  pub stepped : Steps Move w.db v.db
  pub held_kept : v.held ≡ w.held
  pub sends : Sends env job w v

module _ (env : Env) (others : OthersStep Move env) (app : App) (job : TelegramReplyJob) where
  -- What the check of the claim gives.
  record Checked (w : World) (b : Bool) (v : World) : Type 0 where
    kept : Keeps Move w v
    holds : b ≡ true → HoldsClaim job (env.clock w.calls) (env.others w.calls w.db)

  abbrev succeeded : Result (Unit {0}) → Bool
  succeeded (ok _) = true
  succeeded (err e) = false

  -- sendTelegramReply adds no message, or the job's.
  data Sent (w v : World) : Type 0 where
    unsent : Keeps Move w v → Sent w v
    added :
        Steps Move w.db v.db
        → v.held ≡ w.held
        → v.outbox ≡ (message_of job (stored_markup job.reply_markup), w.held) ∷ w.outbox
        → Sent w v

  -- With the chat's lock held.
  record Finished (w v : World) : Type 0 where
    stepped : Steps Move w.db v.db
    held_kept : v.held ≡ w.held
    sends : (v.outbox ≡ w.outbox) ⊎ Speaks env job w.calls w.db w.held w.outbox v
