-- ===== src/Pricing.antt =====
-- The price arithmetic of internal/app/pricing.go.
pub mod Cache
pub mod Fetch
pub mod Text
pub mod Stale
pub mod Cached
pub mod Warmed
pub mod Persisting
pub mod Ticker
use cryptopulse_telegram_bot.Prelude.{ℕ, ◌-◌, ◌*◌, ◌^◌, Bool, ◌&&◌, min, ltb, ◌==◌, if◌then◌else◌}
use cryptopulse_telegram_bot.Workers.{minute}

abbrev pub price_freshness_limit : ℕ
price_freshness_limit = minute

-- now.Sub saturates at the largest Duration, and a negative age counts as 0.
unfoldable pub price_age : ℕ → ℕ → ℕ
price_age now updated_at = if updated_at == 0 then 0 else min (now - updated_at) (2 ^ 63 - 1)

-- isValidMarketPrice on the bit pattern of a float64: neither NaN nor infinite, and above zero. The
-- patterns of the positive finite numbers are those from 1 up to the one of +Inf, in their order.
unfoldable pub is_valid_market_price : ℕ → Bool
is_valid_market_price bits = ltb 0 bits && ltb bits (0x7FF * 2 ^ 52)
