-- ===== src/Pricing/Text.antt =====
-- getFormattedPricesFromCacheAt of internal/app/pricing.go. The float64 arithmetic, the verb %.2f and the
-- clock time in Kyiv are arguments.
use cryptopulse_telegram_bot.Prelude.{
  ℕ, Bool, true, false, not, ◌&&◌, ◌||◌, Option, none, some, List, [], ◌∷◌, ◌++◌, String, ltb, ◌==◌,
  if◌then◌else◌,
}
use cryptopulse_telegram_bot.Bytes.{Bytes, bytes, bytes_eq}
use cryptopulse_telegram_bot.Update.{PriceEntry}
use cryptopulse_telegram_bot.App.{App}
use cryptopulse_telegram_bot.Telegram.{text}
use cryptopulse_telegram_bot.Handlers.Texts.{sprintf}
use cryptopulse_telegram_bot.Pricing.{price_age, price_freshness_limit}
use cryptopulse_telegram_bot.Pricing.Cache.{PriceCache, load, observe_price_ages, tracked_coins}
use cryptopulse_telegram_bot.Session.{Act}

-- Go's float64 on bit patterns with the verb %.2f, and a time in Kyiv in the format 15:04:05.
pub record Formats : Type 0 where
  pub minus : ℕ → ℕ → ℕ
  pub over : ℕ → ℕ → ℕ
  pub times : ℕ → ℕ → ℕ
  pub above : ℕ → ℕ → Bool
  pub two_decimals : ℕ → Bytes
  pub time_of_day : ℕ → Bytes

-- The bit patterns of 100, 0.001 and -0.001
abbrev pub hundred : ℕ
hundred = 0x4059000000000000

abbrev pub thousandth : ℕ
thousandth = 0x3F50624DD2F1A9FC

abbrev pub minus_thousandth : ℕ
minus_thousandth = 0xBF50624DD2F1A9FC

-- The signs in front of a line, in UTF-8.
abbrev pub white_circle : Bytes
white_circle = 0xE2 ∷ 0x9A ∷ 0xAA ∷ 0xEF ∷ 0xB8 ∷ 0x8F ∷ []

abbrev warning_sign : Bytes
warning_sign = 0xE2 ∷ 0x9A ∷ 0xA0 ∷ 0xEF ∷ 0xB8 ∷ 0x8F ∷ []

abbrev green_circle : Bytes
green_circle = 0xF0 ∷ 0x9F ∷ 0x9F ∷ 0xA2 ∷ []

abbrev red_circle : Bytes
red_circle = 0xF0 ∷ 0x9F ∷ 0x94 ∷ 0xB4 ∷ []

abbrev hryvnia_sign : Bytes
hryvnia_sign = 0xE2 ∷ 0x82 ∷ 0xB4 ∷ []

-- entry.UpdatedAt.IsZero() || age > priceFreshnessLimit
unfoldable pub is_stale : ℕ → PriceEntry → Bool
is_stale now e = e.updated_at == 0 || ltb price_freshness_limit (price_age now e.updated_at)

-- The update that is the oldest so far; 0 is no update.
unfoldable pub older_update : ℕ → ℕ → ℕ
older_update oldest updated_at =
    if not (updated_at == 0) && (oldest == 0 || ltb updated_at oldest) then updated_at else oldest

-- The variables of the loop.
pub record Summary : Type 0 where
  pub lines : List Bytes
  pub oldest_update : ℕ
  pub has_data : Bool
  pub has_stale_data : Bool

abbrev pub no_lines : Summary
no_lines = record { lines = []; oldest_update = 0; has_data = false; has_stale_data = false }

module _ (fm : Formats) (app : App) (lang : String) (now : ℕ) where
  unfoldable pub percent_change : PriceEntry → ℕ
  percent_change e =
      if fm.above e.previous 0
      then fm.times (fm.over (fm.minus e.current e.previous) e.previous) hundred
      else 0

  unfoldable pub emoji : PriceEntry → Bytes
  emoji e =
      if not (is_stale now e) && fm.above (percent_change e) thousandth
      then green_circle
      else if not (is_stale now e) && fm.above minus_thousandth (percent_change e)
      then red_circle
      else if is_stale now e
      then warning_sign
      else white_circle

  unfoldable pub trend : PriceEntry → Bytes
  trend e =
      let percent = fm.two_decimals (percent_change e) ++ bytes "%" in
      if fm.above (percent_change e) 0 then b'+' ∷ percent else percent

  unfoldable pub price_line : Bytes → Bytes → PriceEntry → Bytes
  price_line symbol label e =
      let currency = if bytes_eq symbol (bytes "USDTUAH") then hryvnia_sign else bytes "$" in
      emoji e
      ++ bytes " "
      ++ label
      ++ bytes ": *"
      ++ currency
      ++ fm.two_decimals e.current
      ++ bytes "* (`"
      ++ trend e
      ++ bytes "`)"

  -- A round of the loop.
  unfoldable pub add_line : Bytes → Bytes → Option PriceEntry → Summary → Summary
  add_line symbol label none s = record s {
    lines =
        s.lines
        ++ (white_circle ++ bytes " " ++ label ++ bytes ": " ++ text app.messages lang "no_data")
          ∷ [];
  }
  add_line symbol label (some e) s = record {
    lines = s.lines ++ price_line symbol label e ∷ [];
    oldest_update = older_update s.oldest_update e.updated_at;
    has_data = true;
    has_stale_data = is_stale now e || s.has_stale_data;
  }

  unfoldable pub summary : List (Bytes × Bytes) → PriceCache → Summary → Summary
  summary [] cache s = s
  summary (coin ∷ coins) cache s =
      summary coins cache (add_line coin.0 coin.1 (load coin.0 cache) s)

  unfoldable pub with_time : Summary → List Bytes
  with_time s =
      if s.has_data && not (s.oldest_update == 0)
      then s.lines
        ++ []
          ∷ sprintf (text app.messages lang "price_data_time") (fm.time_of_day s.oldest_update ∷ [])
          ∷ []
      else s.lines

  unfoldable pub with_warning : Summary → List Bytes
  with_warning s =
      if s.has_stale_data
      then with_time s ++ text app.messages lang "stale_data" ∷ []
      else with_time s

  -- strings.Join(lines, "\n")
  unfoldable pub join_lines : List Bytes → Bytes
  join_lines [] = []
  join_lines (l ∷ []) = l
  join_lines (l ∷ m ∷ lines) = l ++ 10 ∷ join_lines (m ∷ lines)

  unfoldable pub formatted_prices : PriceCache → Bytes
  formatted_prices cache = join_lines (with_warning (summary tracked_coins cache no_lines))

  -- getFormattedPricesFromCacheAt
  unfoldable pub get_formatted_prices_from_cache_at : PriceCache → Act Bytes
  get_formatted_prices_from_cache_at cache w =
      (formatted_prices cache, observe_price_ages now cache w)
