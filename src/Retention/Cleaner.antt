-- ===== src/Retention/Cleaner.antt =====
-- startNotificationRetentionCleaner of internal/app/retention.go.
use cryptopulse_telegram_bot.Prelude.{ℕ, zero, suc, ltb, if_both}
use cryptopulse_telegram_bot.Workers.{retention_cleanup_limit}
use cryptopulse_telegram_bot.Schema.{Db}
use cryptopulse_telegram_bot.Session.{Env, World, Act, unless_done, check_context, rows_affected}
use cryptopulse_telegram_bot.Session.Rules.{
  handle_then, unless_done_then, confirmed_continue, answered_cases,
}
use cryptopulse_telegram_bot.Retention.{
  History, Drained, delete_expired, delete_batch, drain_failed, after_batch,
  drain_retention_batches, notification_job_history, telegram_update_history,
  telegram_reply_history, price_alert_history, run_notification_retention_cleanup,
}

module _ (env : Env) (fuel : ℕ) where
  -- The loop, for the rounds that are looked at. A select takes the tick or the end of the context, as
  -- the environment says.
  unfoldable pub cleaner_rounds : ℕ → Act (Unit {0})
  cleaner_rounds zero w = (tt, w)
  cleaner_rounds (suc rounds) w =
      unless_done (check_context env w).0 (λ m. tt)
        (λ v. cleaner_rounds rounds (run_notification_retention_cleanup env fuel v).1)
        (check_context env w).1

  unfoldable pub start_notification_retention_cleaner : ℕ → Act (Unit {0})
  unfolding cleaner_rounds
  start_notification_retention_cleaner rounds w =
      cleaner_rounds rounds (run_notification_retention_cleanup env fuel w).1

-- What the statements of the batches and the other sessions keep, the cleaner keeps.
module _ (env : Env) (P : Db → Type 0)
    (others_keep : (n : ℕ) (d : Db) → P d → P (env.others n d)) where
  abbrev pub Keeps : {A : Type 0} → History A → Type 0
  Keeps h = (now : ℕ) (d : Db) → P d → P (delete_expired h now d).1

  delete_batch_keeps :
      {A : Type 0} (h : History A) → Keeps h → (w : World) → P w.db → P (delete_batch h env w).1.db
  delete_batch_keeps h keep w p =
      confirmed_continue (λ r. P r.1.db) (rows_affected env) _ _ _ _ (λ m. others_keep _ _ p)
        (λ m. keep _ _ (others_keep _ _ p))
        (answered_cases (λ r. P r.1.db) _ _ _ _ (λ m. keep _ _ (others_keep _ _ p))
          (keep _ _ (others_keep _ _ p)))

  drain_keeps :
      {A : Type 0} (h : History A)
      → Keeps h
      → (rounds total : ℕ) (w : World) → P w.db
      → P (drain_retention_batches h.operation (delete_batch h env) rounds total w).1.db
  unfolding drain_retention_batches after_batch drain_failed
  drain_keeps h keep zero total w p = p
  drain_keeps h keep (suc rounds) total w p =
      let q = delete_batch_keeps h keep w p in
      handle_then (λ (r : Drained × World). P r.1.db) _ _ (delete_batch h env w)
        (λ n e.
          if_both (λ (r : Drained × World). P r.1.db) (ltb n retention_cleanup_limit) _ _ q
            (drain_keeps h keep rounds _ _ q))
        (λ e f. q)

  module _ (fuel : ℕ) (jobs : Keeps notification_job_history)
      (updates : Keeps telegram_update_history) (replies : Keeps telegram_reply_history)
      (alerts : Keeps price_alert_history) where
    run_keeps : (w : World) → P w.db → P (run_notification_retention_cleanup env fuel w).1.db
    unfolding run_notification_retention_cleanup
    run_keeps w p = drain_keeps price_alert_history alerts fuel 0 _ (
        drain_keeps telegram_reply_history replies fuel 0 _ (
          drain_keeps telegram_update_history updates fuel 0 _
            (drain_keeps notification_job_history jobs fuel 0 w p)))

    cleaner_rounds_keep :
        (rounds : ℕ) (w : World) → P w.db → P (cleaner_rounds env fuel rounds w).1.db
    unfolding cleaner_rounds
    cleaner_rounds_keep zero w p = p
    cleaner_rounds_keep (suc rounds) w p =
        let v = (check_context env w).1 in
        unless_done_then (λ (r : Unit {0} × World). P r.1.db) (check_context env w).0 _ _ v (λ m. p)
          (cleaner_rounds_keep rounds _ (run_keeps v p))

    pub cleaner_keeps :
        (rounds : ℕ) (w : World)
        → P w.db
        → P (start_notification_retention_cleaner env fuel rounds w).1.db
    unfolding start_notification_retention_cleaner
    cleaner_keeps rounds w p = cleaner_rounds_keep rounds _ (run_keeps w p)
