-- ===== src/Workers.antt =====
-- internal/workers/policy.go: the retry and lease policy of the background workers, and
-- telegramRetryDelay of internal/app/telegram_errors.go. Times and durations are nanoseconds.
pub mod Bounds
use cryptopulse_telegram_bot.Prelude.{
  ℕ, ◌-◌, ◌*◌, ◌/◌, ◌||◌, Option, none, some, ◌++◌, leb, if◌then◌else◌, ℤ, pos, negsuc, leb_ℤ,
  ltb_ℤ, wrap64, scale, length, take,
}
use cryptopulse_telegram_bot.Bytes.{Bytes, bytes, format_int}
use cryptopulse_telegram_bot.GoError.{Error, ApiError, as_api}

abbrev pub second : ℕ
second = 1_000_000_000

abbrev pub minute : ℕ
minute = 60_000_000_000

abbrev pub hour : ℕ
hour = 3_600_000_000_000

abbrev pub day : ℕ
day = 86_400_000_000_000

abbrev pub database_lock_pool_max_open_connections : ℕ
database_lock_pool_max_open_connections = 12

abbrev pub notification_worker_count : ℕ
notification_worker_count = 3

abbrev pub telegram_reply_worker_count : ℕ
telegram_reply_worker_count = 3

abbrev pub cron_lock_connection_reserve : ℕ
cron_lock_connection_reserve = 1

abbrev pub lock_pool_operational_reserve : ℕ
lock_pool_operational_reserve = 1

abbrev pub max_telegram_update_worker_count : ℕ
max_telegram_update_worker_count =
    database_lock_pool_max_open_connections - notification_worker_count
    - telegram_reply_worker_count - cron_lock_connection_reserve - lock_pool_operational_reserve

abbrev pub cron_batch_limit : ℕ
cron_batch_limit = 100

abbrev pub outbox_claim_candidate_limit : ℕ
outbox_claim_candidate_limit = 10

abbrev pub telegram_update_shard_count : ℕ
telegram_update_shard_count = 64

abbrev pub telegram_update_claim_window : ℕ
telegram_update_claim_window = 45 * second

abbrev pub telegram_update_max_attempts : ℕ
telegram_update_max_attempts = 3

abbrev pub telegram_reply_claim_window : ℕ
telegram_reply_claim_window = 45 * second

abbrev pub telegram_reply_max_attempts : ℕ
telegram_reply_max_attempts = 3

abbrev pub notification_job_claim_window : ℕ
notification_job_claim_window = 45 * second

abbrev pub telegram_send_lease_safety_window : ℕ
telegram_send_lease_safety_window = 15 * second

abbrev pub notification_job_max_attempts : ℕ
notification_job_max_attempts = 3

abbrev pub notification_failure_cooldown : ℕ
notification_failure_cooldown = 15 * minute

abbrev pub retention_cleanup_limit : ℕ
retention_cleanup_limit = 1000

-- int(duration.Seconds()) for a duration that PostgresInterval does not clamp; exact for the whole
-- numbers of seconds that all callers pass.
abbrev pub interval_seconds : ℤ → ℕ
interval_seconds (pos d) = d / second
interval_seconds (negsuc d) = 0

unfoldable pub postgres_interval : ℤ → Bytes
postgres_interval duration =
    if leb_ℤ duration (pos 0)
    then bytes "0 seconds"
    else format_int (pos (interval_seconds duration)) ++ bytes " seconds"

-- The length of time that PostgreSQL adds for the text above.
abbrev pub interval : ℤ → ℕ
interval duration = interval_seconds duration * second

unfoldable pub truncate_error : Bytes → ℤ → Bytes
truncate_error text (negsuc n) = text
truncate_error text (pos limit) =
    if leb_ℤ (pos limit) (pos 0) || leb (length text) limit then text else take limit text

unfoldable pub retry_delay : ℤ → ℤ
retry_delay attempts =
    let attempts' = if ltb_ℤ attempts (pos 1) then pos 1 else attempts in
    let delay = wrap64 (scale attempts' (minute - 1)) in
    if ltb_ℤ (pos (10 * minute)) delay then pos (10 * minute) else delay

abbrev pub longer : ℤ → ℤ → ℤ
longer requested delay = if ltb_ℤ delay requested then requested else delay

-- A positive RetryAfter, when it is longer than the delay.
abbrev pub honour_seconds : ℤ → ℤ → ℤ
honour_seconds delay retry_after =
    if ltb_ℤ (pos 0) retry_after
    then longer (wrap64 (scale retry_after (second - 1))) delay
    else delay

abbrev pub honour : ℤ → Option ApiError → ℤ
honour delay none = delay
honour delay (some e) = honour_seconds delay e.retry_after

-- telegramRetryDelay: Telegram's retry_after, when it asks for longer than the policy.
unfoldable pub telegram_retry_delay : ℤ → Error → ℤ
unfolding retry_delay
telegram_retry_delay attempts send_error = honour (retry_delay attempts) (as_api send_error)
