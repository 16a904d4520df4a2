-- ===== src/Pricing/Ticker.antt =====
-- startPriceTicker of internal/app/pricing.go, after WarmupCache.
use cryptopulse_telegram_bot.Prelude.{ℕ, Option, List, [], ◌∷◌}
use cryptopulse_telegram_bot.Bytes.{Bytes}
use cryptopulse_telegram_bot.Schema.{PriceRow}
use cryptopulse_telegram_bot.App.{App}
use cryptopulse_telegram_bot.Session.{Env, World, Act, unless_done, check_context}
use cryptopulse_telegram_bot.Session.Rules.{unless_done_then}
use cryptopulse_telegram_bot.Pricing.Cache.{PriceCache, load, warmup_cache}
use cryptopulse_telegram_bot.Bytes.Equality.{get}
use cryptopulse_telegram_bot.Pricing.Fetch.{Market, fetch_and_cache_prices}
use cryptopulse_telegram_bot.Pricing.Cached.{AllValid, fetch_and_cache_prices-AllValid}
use cryptopulse_telegram_bot.Pricing.Warmed.{warmup_cache-AllValid}

module _ (env : Env) (app : App) (market : Market) (fuel : ℕ) where
  -- The loop, with the order of the coins in each of the rounds that are looked at. A select takes the
  -- tick or the end of the context, as the environment says.
  unfoldable pub ticker_rounds : List (List Bytes) → PriceCache → Act PriceCache
  ticker_rounds [] cache w = (cache, w)
  ticker_rounds (order ∷ orders) cache w =
      unless_done (check_context env w).0 (λ m. cache)
        (λ v.
          let (cache', v') = fetch_and_cache_prices env app market fuel order cache v in
          ticker_rounds orders cache' v')
        (check_context env w).1

  unfoldable pub start_price_ticker : List Bytes → List (List Bytes) → PriceCache → Act PriceCache
  unfolding ticker_rounds
  start_price_ticker first orders cache w =
      let (cache', w') = fetch_and_cache_prices env app market fuel first cache w in
      ticker_rounds orders cache' w'

  -- What Run does with the new cache: WarmupCache, and then startPriceTicker.
  abbrev pub run_prices :
      ℕ
      → (PriceRow → Option PriceRow)
      → (List PriceRow → List PriceRow)
      → List Bytes
      → List (List Bytes)
      → Act PriceCache
  run_prices now scan received first orders w =
      let (cache, v) = warmup_cache env now scan received [] w in
      start_price_ticker first orders cache v

  ticker_rounds-AllValid :
      (orders : List (List Bytes)) (cache : PriceCache) (w : World)
      → AllValid cache
      → AllValid (ticker_rounds orders cache w).0
  unfolding ticker_rounds
  ticker_rounds-AllValid [] cache w all = all
  ticker_rounds-AllValid (order ∷ orders) cache w all =
      let v = (check_context env w).1 in
      let round = fetch_and_cache_prices env app market fuel order cache v in
      unless_done_then (λ (r : PriceCache × World). AllValid r.0) (check_context env w).0 _ _ v
        (λ m. all)
        (ticker_rounds-AllValid orders round.0 round.1
          (fetch_and_cache_prices-AllValid env app market fuel order cache v all))

  empty-AllValid : AllValid []
  unfolding load get
  empty-AllValid symbol e h = cc

  -- From the start of the program on, the cache of prices holds only valid prices, as current and as
  -- previous ones: after WarmupCache has filled the empty cache, and after any number of rounds of
  -- startPriceTicker, whatever the database has, whatever the exchange answers, whatever fails, and in
  -- whatever order the coins are fetched.
  pub run_prices-AllValid :
      (now : ℕ) (scan : PriceRow → Option PriceRow) (received : List PriceRow → List PriceRow)
      (first : List Bytes) (orders : List (List Bytes)) (w : World)
      → AllValid (run_prices now scan received first orders w).0
  unfolding start_price_ticker
  run_prices-AllValid now scan received first orders w =
      let warm = warmup_cache env now scan received [] w in
      let round = fetch_and_cache_prices env app market fuel first warm.0 warm.1 in
      ticker_rounds-AllValid orders round.0 round.1 (
        fetch_and_cache_prices-AllValid env app market fuel first warm.0 warm.1
          (warmup_cache-AllValid env now scan received [] w empty-AllValid))
