-- ===== src/Examples/Policy.antt =====
-- The retry policy and the finalization at concrete inputs.
use cryptopulse_telegram_bot.Prelude.{◌*◌, ◌≡◌, refl, some, pos}
use cryptopulse_telegram_bot.Bytes.{bytes}
use cryptopulse_telegram_bot.GoError.{
  ApiError, api, plain, as_api, job_ownership_lost, is_ownership_lost,
}
use cryptopulse_telegram_bot.Workers.{minute, retry_delay, telegram_retry_delay}
use cryptopulse_telegram_bot.Session.{Try, err, bump, unless_done, handle}
use cryptopulse_telegram_bot.SentFinalization.{finalize, default_sent_finalization_policy}
use cryptopulse_telegram_bot.SentFinalization.Attempts.{FinalizeOutcome, finalize-FinalizeOutcome}
use cryptopulse_telegram_bot.Examples.{quiet_env, small_db, world_of}

abbrev too_many_requests : ApiError
too_many_requests = record {
  code = 429;
  message = bytes "Too Many Requests";
  retry_after = pos 120;
}

-- Telegram's two minutes win over the policy's one.
waits_two_minutes : telegram_retry_delay (pos 1) (api too_many_requests) ≡ pos (2 * minute)
unfolding telegram_retry_delay retry_delay as_api
waits_two_minutes = refl

-- A write that always fails, and one that finds its claim gone.
abbrev failing_run : Try (Unit {0})
failing_run w = (err (plain (bytes "connection reset")), bump w)

abbrev stale_run : Try (Unit {0})
stale_run w = (err job_ownership_lost, bump w)

finalize_example :
    FinalizeOutcome failing_run 5
      (world_of small_db)
      (finalize quiet_env default_sent_finalization_policy failing_run (world_of small_db))
finalize_example =
    finalize-FinalizeOutcome quiet_env default_sent_finalization_policy failing_run
      (world_of small_db) refl

finalize_tries_five_times :
    (finalize quiet_env default_sent_finalization_policy failing_run (world_of small_db)).0.0 ≡ 5
unfolding finalize unless_done handle is_ownership_lost
finalize_tries_five_times = refl

finalize_stops_at_once :
    (finalize quiet_env default_sent_finalization_policy stale_run (world_of small_db)).0
    ≡ (1, some job_ownership_lost)
unfolding finalize unless_done handle is_ownership_lost
finalize_stops_at_once = refl
