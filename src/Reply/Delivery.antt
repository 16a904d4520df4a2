-- ===== src/Reply/Delivery.antt =====
-- What the parts of processTelegramReply keep, when the other sessions run the same program.
use cryptopulse_telegram_bot.Prelude.{ℕ, refl, inl, inr, String, Option, leb, ◌&&◌, Bool-cases}
use cryptopulse_telegram_bot.GoError.{Error, is_ownership_lost}
use cryptopulse_telegram_bot.App.{App}
use cryptopulse_telegram_bot.Telegram.{is_permanent_send_error}
use cryptopulse_telegram_bot.Workers.{telegram_reply_max_attempts}
use cryptopulse_telegram_bot.Session.{Env, World, Result}
use cryptopulse_telegram_bot.Session.Rules.{confirmed_then}
use cryptopulse_telegram_bot.Session.Steps.{
  Steps, next, OthersStep, Keeps, Keeps-refl, Keeps-counted, Keeps-trans,
}
use cryptopulse_telegram_bot.SentFinalization.{default_sent_finalization_policy}
use cryptopulse_telegram_bot.SentFinalization.Attempts.{
  Attempts, before, pause, first, again, finalize-FinalizeOutcome,
}
use cryptopulse_telegram_bot.Notification.Outcome.{ensure_then}
use cryptopulse_telegram_bot.Reply.Jobs.{TelegramReplyJob, Ending, end_claim}
use cryptopulse_telegram_bot.Reply.Moves.{Move, end}
use cryptopulse_telegram_bot.Reply.Finish.{
  finish, mark_telegram_reply_sent_once, mark_telegram_reply_retry, mark_telegram_reply_failed,
}
use cryptopulse_telegram_bot.Reply.Process.{
  defer_telegram_reply, delivery_confirmed, delivery_failed, delivery_answered, validation_failed,
  is_edit, is_telegram_message_not_modified,
}

module _ (env : Env) (others : OthersStep Move env) where
  finish-Keeps :
      (operation : String) (job : TelegramReplyJob) (ending : Ending) (w : World)
      → Keeps Move w (finish env operation job ending w).1
  unfolding finish
  finish-Keeps operation job ending w =
      confirmed_then Goal operation _ _ _ _ _
        (λ m. record { stepped = others w.calls w.db; outbox_kept = refl; held_kept = refl })
        (λ m. record { stepped = ended; outbox_kept = refl; held_kept = refl })
        (ensure_then Goal _ env operation _ _
          (λ m. record { stepped = ended; outbox_kept = refl; held_kept = refl })
          (λ e. record { stepped = ended; outbox_kept = refl; held_kept = refl })
          (λ e. record { stepped = ended; outbox_kept = refl; held_kept = refl }))
    where
      Goal : Result (Unit {0}) × World → Type 0
      Goal r = Keeps Move w r.1

      ended : Steps Move w.db (end_claim job ending (env.clock w.calls) (env.others w.calls w.db)).1
      ended = next (others w.calls w.db) (end job ending (env.clock w.calls))

  failed-Keeps :
      (app : App) (job : TelegramReplyJob) (e : Error) (w : World)
      → Keeps Move w (mark_telegram_reply_failed env app job e w).1
  unfolding mark_telegram_reply_failed
  failed-Keeps app job e w = finish-Keeps _ job _ w

  retry-Keeps :
      (app : App) (job : TelegramReplyJob) (e : Error) (w : World)
      → Keeps Move w (mark_telegram_reply_retry env app job e w).1
  unfolding mark_telegram_reply_retry
  retry-Keeps app job e w = finish-Keeps _ job _ w

  sent-Keeps :
      (job : TelegramReplyJob) (w : World)
      → Keeps Move w (mark_telegram_reply_sent_once env job w).1
  unfolding mark_telegram_reply_sent_once
  sent-Keeps job w = finish-Keeps _ job _ w

  pub defer-Keeps :
      (app : App) (job : TelegramReplyJob) (e : Error) (w : World)
      → Keeps Move w (defer_telegram_reply env app job e w).1
  unfolding defer_telegram_reply
  defer-Keeps app job e w = elim (Bool-cases (leb telegram_reply_max_attempts job.attempts)) [
    | inl t ↦ rw t (failed-Keeps app job _ w)
    | inr t ↦ rw t (retry-Keeps app job e w)
  ]

  delivery_failed-Keeps :
      (app : App) (job : TelegramReplyJob) (e : Error) (w : World)
      → Keeps Move w (delivery_failed env app job e w).1
  unfolding delivery_failed
  delivery_failed-Keeps app job e w = elim (Bool-cases (is_permanent_send_error e)) [
    | inl t ↦ rw t (Keeps-counted (failed-Keeps app job _ w))
    | inr t ↦ rw t (elim (Bool-cases (leb telegram_reply_max_attempts job.attempts)) [
      | inl u ↦ rw u (Keeps-counted (failed-Keeps app job _ w))
      | inr u ↦ rw u (Keeps-counted (retry-Keeps app job e w))
    ])
  ]

  -- Retrying the final write keeps what one write keeps.
  Attempts-Keeps :
      (job : TelegramReplyJob) {w u : World} {n : ℕ} {r : Option (Result (Unit {0}))}
      → Attempts (mark_telegram_reply_sent_once env job) w n r u
      → Keeps Move w u
  Attempts-Keeps job before = Keeps-refl
  Attempts-Keeps job (pause a) = Keeps-counted (Attempts-Keeps job a)
  Attempts-Keeps job (first {u = u} a) = Keeps-trans (Attempts-Keeps job a) (sent-Keeps job u)
  Attempts-Keeps job (again {u = u} a i) = Keeps-trans (Attempts-Keeps job a) (sent-Keeps job u)

  pub delivery_confirmed-Keeps :
      (job : TelegramReplyJob) (w : World) → Keeps Move w (delivery_confirmed env job w).1
  unfolding delivery_confirmed
  delivery_confirmed-Keeps job w = Keeps-counted (
      Attempts-Keeps job
        (finalize-FinalizeOutcome env default_sent_finalization_policy
          (mark_telegram_reply_sent_once env job) w refl).made)

  pub delivery_answered-Keeps :
      (app : App) (job : TelegramReplyJob) (e : Error) (w : World)
      → Keeps Move w (delivery_answered env app job e w).1
  unfolding delivery_answered
  delivery_answered-Keeps app job e w =
      elim (Bool-cases (is_edit job.operation && is_telegram_message_not_modified e)) [
        | inl t ↦ rw t (delivery_confirmed-Keeps job w)
        | inr t ↦ rw t (delivery_failed-Keeps app job e w)
      ]

  pub validation_failed-Keeps :
      (app : App) (job : TelegramReplyJob) (e : Error) (w : World)
      → Keeps Move w (validation_failed env app job e w).1
  unfolding validation_failed
  validation_failed-Keeps app job e w = elim (Bool-cases (is_ownership_lost e)) [
    | inl t ↦ rw t (Keeps-counted Keeps-refl)
    | inr t ↦ rw t (defer-Keeps app job _ w)
  ]
