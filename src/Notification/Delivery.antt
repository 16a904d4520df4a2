-- ===== src/Notification/Delivery.antt =====
-- What the parts of processNotificationJob keep, when the other sessions run the same program.
use cryptopulse_telegram_bot.Prelude.{
  ℕ, refl, sym, subst, inl, inr, String, Bool, true, false, Option, leb, Bool-cases,
}
use cryptopulse_telegram_bot.GoError.{Error}
use cryptopulse_telegram_bot.Workers.{notification_job_max_attempts}
use cryptopulse_telegram_bot.Telegram.{is_permanent_send_error}
use cryptopulse_telegram_bot.App.{App}
use cryptopulse_telegram_bot.Session.{Env, World, Result}
use cryptopulse_telegram_bot.SentFinalization.{default_sent_finalization_policy}
use cryptopulse_telegram_bot.SentFinalization.Attempts.{
  Attempts, before, pause, first, again, finalize-FinalizeOutcome,
}
use cryptopulse_telegram_bot.Notification.Jobs.{NotificationJob, Ending}
use cryptopulse_telegram_bot.Notification.Finish.{
  finish, mark_notification_job_sent_once, mark_notification_job_retry,
  mark_notification_job_canceled, mark_notification_job_failed,
}
use cryptopulse_telegram_bot.Notification.Outcome.{
  Ends, done, stale, broken, lost, finish-FinishOutcome,
}
use cryptopulse_telegram_bot.Notification.Moves.{
  Moves, here, next, end, Keeps, Keeps-counted, Keeps-refl, Keeps-bump, Keeps-trans, OthersMove,
}
use cryptopulse_telegram_bot.Notification.Process.{
  defer_notification_job, delivery_failed, delivery_confirmed, cancel_delivery,
}

module _ (env : Env) (others : OthersMove env) where
  Ends-Moves :
      (job : NotificationJob) (ending : Ending) (w : World) {r : Result (Unit {0}) × World}
      → Ends env job ending w r
      → Moves w.db r.1.db
  Ends-Moves job ending w (done _ _ e) =
      subst (Moves w.db) (sym e) (next (others _ w.db) (end job ending _))
  Ends-Moves job ending w (stale _ _ e) = subst (Moves w.db) (sym e) (others _ w.db)
  Ends-Moves job ending w (broken m _ (inl e)) = subst (Moves w.db) (sym e) here
  Ends-Moves job ending w (broken m _ (inr e)) = subst (Moves w.db) (sym e) (others _ w.db)
  Ends-Moves job ending w (lost m _ _ e) =
      subst (Moves w.db) (sym e) (next (others _ w.db) (end job ending _))

  finish-Keeps :
      (operation : String) (job : NotificationJob) (ending : Ending) (w : World)
      → Keeps w (finish env operation job ending w).1
  finish-Keeps operation job ending w =
      let o = finish-FinishOutcome env job ending w operation in
      record {
        moved = Ends-Moves job ending w o.ends;
        outbox_kept = o.outbox_kept;
        held_kept = o.held_kept;
      }

  pub retry-Keeps :
      (app : App) (job : NotificationJob) (e : Error) (w : World)
      → Keeps w (mark_notification_job_retry env app job e w).1
  unfolding mark_notification_job_retry
  retry-Keeps app job e w = finish-Keeps _ job _ w

  failed-Keeps :
      (app : App) (job : NotificationJob) (e : Error) (permanent : Bool) (w : World)
      → Keeps w (mark_notification_job_failed env app job e permanent w).1
  unfolding mark_notification_job_failed
  failed-Keeps app job e permanent w = finish-Keeps _ job _ w

  canceled-Keeps :
      (job : NotificationJob) (w : World) → Keeps w (mark_notification_job_canceled env job w).1
  unfolding mark_notification_job_canceled
  canceled-Keeps job w = finish-Keeps _ job _ w

  sent-Keeps :
      (job : NotificationJob) (w : World) → Keeps w (mark_notification_job_sent_once env job w).1
  unfolding mark_notification_job_sent_once
  sent-Keeps job w = finish-Keeps _ job _ w

  pub defer-Keeps :
      (app : App) (job : NotificationJob) (e : Error) (w : World)
      → Keeps w (defer_notification_job env app job e w).1
  unfolding defer_notification_job
  defer-Keeps app job e w = elim (Bool-cases (leb notification_job_max_attempts job.attempts)) [
    | inl t ↦ rw t (Keeps-counted (failed-Keeps app job e false w))
    | inr t ↦ rw t (Keeps-counted (retry-Keeps app job e w))
  ]

  pub delivery_failed-Keeps :
      (app : App) (job : NotificationJob) (e : Error) (w : World)
      → Keeps w (delivery_failed env app job e w).1
  unfolding delivery_failed
  delivery_failed-Keeps app job e w = elim (Bool-cases (is_permanent_send_error e)) [
    | inl t ↦ rw t (Keeps-counted (failed-Keeps app job _ true w))
    | inr t ↦ rw t (elim (Bool-cases (leb notification_job_max_attempts job.attempts)) [
      | inl u ↦ rw u (Keeps-counted (failed-Keeps app job _ false w))
      | inr u ↦ rw u (Keeps-counted (retry-Keeps app job e w))
    ])
  ]

  pub cancel_delivery-Keeps :
      (job : NotificationJob) (w : World) → Keeps w (cancel_delivery env job w).1
  unfolding cancel_delivery
  cancel_delivery-Keeps job w = Keeps-counted (canceled-Keeps job w)

  -- Retrying the final write keeps what one write keeps.
  Attempts-Keeps :
      (job : NotificationJob) {w u : World} {n : ℕ} {r : Option (Result (Unit {0}))}
      → Attempts (mark_notification_job_sent_once env job) w n r u
      → Keeps w u
  Attempts-Keeps job before = Keeps-refl
  Attempts-Keeps job (pause a) = Keeps-bump (Attempts-Keeps job a)
  Attempts-Keeps job (first {u = u} a) = Keeps-trans (Attempts-Keeps job a) (sent-Keeps job u)
  Attempts-Keeps job (again {u = u} a i) = Keeps-trans (Attempts-Keeps job a) (sent-Keeps job u)

  pub delivery_confirmed-Keeps :
      (job : NotificationJob) (w : World) → Keeps w (delivery_confirmed env job w).1
  unfolding delivery_confirmed
  delivery_confirmed-Keeps job w = Keeps-counted (
      Attempts-Keeps job
        (finalize-FinalizeOutcome env default_sent_finalization_policy
          (mark_notification_job_sent_once env job) w refl).made)
