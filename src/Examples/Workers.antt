-- ===== src/Examples/Workers.antt =====
-- The workers at a small database.
use cryptopulse_telegram_bot.Prelude.{refl, arith, inl}
use cryptopulse_telegram_bot.Polling.{alert_worker}
use cryptopulse_telegram_bot.Polling.Locked.{RunOutcome, alert_worker-RunOutcome}
use cryptopulse_telegram_bot.Polling.Delivers.{calm}
use cryptopulse_telegram_bot.Polling.Sends.{RoundSends, alert_worker-RoundSends}
use cryptopulse_telegram_bot.Examples.{
  quiet_env, quiet_env-OthersMove, waiting_row, small_db, world_of, app,
}

round_example :
    RoundSends quiet_env 77 app
      (world_of small_db)
      (alert_worker (calm quiet_env 77) app 1 (world_of small_db)).1
round_example =
    alert_worker-RoundSends quiet_env 77 app (world_of small_db) waiting_row (inl refl) refl
      (λ h. refl, tt) (omega arith)

run_example : RunOutcome (world_of small_db) (alert_worker quiet_env app 2 (world_of small_db)).1
run_example = alert_worker-RunOutcome quiet_env app quiet_env-OthersMove 2 (world_of small_db)
