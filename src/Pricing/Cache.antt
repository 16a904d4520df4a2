-- ===== src/Pricing/Cache.antt =====
-- PriceCache of internal/app/app.go, and WarmupCache of internal/app/pricing.go. A mutex guards the map,
-- so that its operations are atomic.
use cryptopulse_telegram_bot.Prelude.{
  ℕ, not, Option, none, some, List, [], ◌∷◌, ◌==◌, if◌then◌else◌,
}
use cryptopulse_telegram_bot.Bytes.{Bytes, bytes}
use cryptopulse_telegram_bot.Bytes.Equality.{get, put}
use cryptopulse_telegram_bot.Schema.{PriceRow}
use cryptopulse_telegram_bot.Update.{PriceEntry}
use cryptopulse_telegram_bot.Session.{Env, World, Act, handle, query, inc, price_age_seconds}
use cryptopulse_telegram_bot.Pricing.{price_age, is_valid_market_price}

abbrev pub PriceCache : Type 0
PriceCache = List (Bytes × PriceEntry)

-- Load
unfoldable pub load : Bytes → PriceCache → Option PriceEntry
load symbol cache = get symbol cache

abbrev pub next_entry : Option PriceEntry → ℕ → ℕ → PriceEntry
next_entry none price at = record { current = price; previous = price; updated_at = at }
next_entry (some old) price at = record { current = price; previous = old.current; updated_at = at }

-- StoreAt, at a time of time.Now().
unfoldable pub store_at : ℕ → Bytes → ℕ → ℕ → PriceCache → PriceCache
unfolding load
store_at now symbol new_price updated_at cache =
    let at = if updated_at == 0 then now else updated_at in
    put symbol (next_entry (load symbol cache) new_price at) cache

-- Store
unfoldable pub store : ℕ → Bytes → ℕ → PriceCache → PriceCache
store now symbol new_price cache = store_at now symbol new_price now cache

-- trackedCoins: symbols and labels
abbrev pub tracked_coins : List (Bytes × Bytes)
tracked_coins =
    (bytes "BTCUSDT", bytes "BTC")
    ∷ (bytes "ETHUSDT", bytes "ETH")
    ∷ (bytes "SOLUSDT", bytes "SOL")
    ∷ (bytes "BNBUSDT", bytes "BNB")
    ∷ (bytes "USDTUAH", bytes "USDT")
    ∷ []

abbrev observe_entry : ℕ → Bytes → Option PriceEntry → World → World
observe_entry now symbol none w = w
observe_entry now symbol (some e) w =
    if e.updated_at == 0
    then w
    else (inc (price_age_seconds symbol (price_age now e.updated_at)) w).1

observe_ages_of : List (Bytes × Bytes) → ℕ → PriceCache → World → World
observe_ages_of [] now cache w = w
observe_ages_of (c ∷ coins) now cache w =
    observe_ages_of coins now cache (observe_entry now c.0 (load c.0 cache) w)

-- observePriceAges
unfoldable pub observe_price_ages : ℕ → PriceCache → World → World
unfolding observe_ages_of
observe_price_ages now cache w = observe_ages_of tracked_coins now cache w

-- A row of the result of WarmupCache's query; a row that Scan cannot read is none.
unfoldable pub warm_row : ℕ → Option PriceRow → PriceCache → PriceCache
warm_row now none cache = cache
warm_row now (some r) cache =
    if not (is_valid_market_price r.price)
    then cache
    else store_at now r.symbol r.price r.updated_at cache

unfoldable pub warm_rows :
    ℕ → (PriceRow → Option PriceRow) → List PriceRow → PriceCache → PriceCache
warm_rows now scan [] cache = cache
warm_rows now scan (r ∷ rows) cache = warm_rows now scan rows (warm_row now (scan r) cache)

-- WarmupCache: an error of the query leaves the cache as it is. The result is cut off after `received`
-- rows when rows.Err() reports an error, which is only logged.
unfoldable pub warmup_cache :
    Env
    → ℕ
    → (PriceRow → Option PriceRow)
    → (List PriceRow → List PriceRow)
    → PriceCache
    → Act PriceCache
warmup_cache env now scan received cache w =
    handle
      (λ rows v.
        let warmed = warm_rows now scan (received rows) cache in
        (warmed, observe_price_ages now warmed v))
      (λ e v. (cache, v)) (query env (λ n db. db.market_prices) w)
