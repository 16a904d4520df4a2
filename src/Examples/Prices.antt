-- ===== src/Examples/Prices.antt =====
-- Prices at concrete inputs.
use cryptopulse_telegram_bot.Prelude.{◌+◌, ◌≡◌, refl, arith, some, List, [], ◌∷◌, true, false}
use cryptopulse_telegram_bot.Bytes.{Bytes, bytes}
use cryptopulse_telegram_bot.Bytes.Equality.{get}
use cryptopulse_telegram_bot.Schema.{Db}
use cryptopulse_telegram_bot.Table.{order_by, insert_by}
use cryptopulse_telegram_bot.Session.{ok, exec, continue, answered, confirmed}
use cryptopulse_telegram_bot.Alert.Input.{alert_symbol}
use cryptopulse_telegram_bot.Alert.Rows.{capture}
use cryptopulse_telegram_bot.Alert.Crossings.{capture_price_alert_crossings, capture_of}
use cryptopulse_telegram_bot.Alert.Captured.{has_crossing}
use cryptopulse_telegram_bot.Pricing.{is_valid_market_price}
use cryptopulse_telegram_bot.Pricing.Cache.{PriceCache, tracked_coins, load, warmup_cache}
use cryptopulse_telegram_bot.Pricing.Fetch.{
  Market, answer, ticker, persist_observed_market_price, fetch_price, upsert_price,
  upsert_market_price, upsert_row, capture_if,
}
use cryptopulse_telegram_bot.Pricing.Persisting.{
  PersistOutcome, persist_observed_market_price-PersistOutcome,
}
use cryptopulse_telegram_bot.Pricing.Cached.{AllValid, FetchOutcome, fetch_price-FetchOutcome}
use cryptopulse_telegram_bot.Pricing.Ticker.{run_prices, run_prices-AllValid}
use cryptopulse_telegram_bot.Pricing.Warmed.{HasKey, load-warmup_cache}
use cryptopulse_telegram_bot.Pricing.Text.{
  Formats, no_lines, summary, add_line, older_update, formatted_prices,
}
use cryptopulse_telegram_bot.Pricing.Stale.{TellsAge, joined, formatted_prices-TellsAge}
use cryptopulse_telegram_bot.Examples.{noon, quiet_env, world_of, app}
use cryptopulse_telegram_bot.Examples.Alerts.{base, target, alert_db}

-- The exchange quotes 52500 for every coin.
abbrev market : Market
market = record {
  exchange = λ n symbol. answer 200 (ticker symbol (bytes "52500.00"));
  parse_float = λ raw. ok target;
  time_now = λ n. noon;
}

abbrev bitcoin : Bytes
bitcoin = bytes "BTCUSDT"

test_persist :
    (persist_observed_market_price quiet_env app bitcoin target (noon + 1) (world_of alert_db)).0
    ≡ ok (noon + 1)
unfolding persist_observed_market_price upsert_price upsert_market_price capture_if
    capture_price_alert_crossings capture_of capture alert_symbol is_valid_market_price exec
    continue answered confirmed
test_persist = refl

-- The alert of the example is crossed by this price.
test_crossed :
    has_crossing 1
      (persist_observed_market_price quiet_env app bitcoin target
        (noon + 1)
        (world_of alert_db)).1.db.price_alert_crossings
    ≡ true
unfolding persist_observed_market_price upsert_price upsert_market_price capture_if
    capture_price_alert_crossings capture_of capture alert_symbol is_valid_market_price exec
    continue answered confirmed order_by insert_by
test_crossed = refl

persist_example :
    PersistOutcome quiet_env app bitcoin target
      (noon + 1)
      (world_of alert_db)
      (persist_observed_market_price quiet_env app bitcoin target (noon + 1) (world_of alert_db))
persist_example =
    persist_observed_market_price-PersistOutcome quiet_env app bitcoin target (noon + 1)
      (world_of alert_db)

fetch_example :
    FetchOutcome quiet_env app market bitcoin
      (noon + 1)
      []
      (world_of alert_db)
      (fetch_price quiet_env app market bitcoin (noon + 1) [] (world_of alert_db))
fetch_example =
    fetch_price-FetchOutcome quiet_env app market bitcoin (noon + 1) [] (world_of alert_db)

cache_example :
    AllValid
      (run_prices quiet_env app market 3 noon
        (λ r. some r)
        (λ rows. rows)
        (bitcoin ∷ [])
        ((bitcoin ∷ []) ∷ [])
        (world_of alert_db)).0
cache_example =
    run_prices-AllValid quiet_env app market 3 noon (λ r. some r) (λ rows. rows) (bitcoin ∷ [])
      ((bitcoin ∷ []) ∷ []) (world_of alert_db)

abbrev persisted_db : Db
persisted_db =
    (persist_observed_market_price quiet_env app bitcoin target (noon + 1) (world_of alert_db)).1.db

persisted_db-HasKey : HasKey persisted_db.market_prices
unfolding persist_observed_market_price upsert_price upsert_market_price upsert_row capture_if
    capture_price_alert_crossings capture_of capture alert_symbol is_valid_market_price exec
    continue answered confirmed order_by insert_by
persisted_db-HasKey = (refl, tt)

warm_example :
    load bitcoin
      (warmup_cache quiet_env noon (λ r. some r) (λ rows. rows) [] (world_of persisted_db)).0
    ≡ some (record { current = target; previous = target; updated_at = noon + 1 })
warm_example =
    load-warmup_cache quiet_env app bitcoin target (noon + 1) (noon + 1) (world_of alert_db)
      quiet_env noon (world_of persisted_db) test_persist (omega arith) persisted_db-HasKey refl
      refl

-- Formats that write nothing.
abbrev formats : Formats
formats = record {
  minus = λ a b. 0;
  over = λ a b. 0;
  times = λ a b. 0;
  above = λ a b. false;
  two_decimals = λ a. [];
  time_of_day = λ t. [];
}

abbrev old_cache : PriceCache
old_cache = (bitcoin, record { current = base; previous = base; updated_at = 5 }) ∷ []

stale_example :
    (lines : List Bytes) × TellsAge formats app "en" noon old_cache tracked_coins lines
    × (formatted_prices formats app "en" noon old_cache ≡ joined lines)
stale_example = formatted_prices-TellsAge formats app "en" noon old_cache

test_stale : (summary formats app "en" noon tracked_coins old_cache no_lines).oldest_update ≡ 5
unfolding summary add_line older_update load get
test_stale = refl
