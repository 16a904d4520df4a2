-- ===== src/Pricing/Fetch.antt =====
-- fetchAndCachePrices of internal/app/pricing.go, with what it calls. What the exchange answers, what
-- strconv.ParseFloat makes of a text and the clock of the process are arguments.
use cryptopulse_telegram_bot.Prelude.{
  ℕ, Bool, true, false, not, ◌&&◌, Option, none, some, List, [], ◌∷◌, String, ◌==◌, if◌then◌else◌,
}
use cryptopulse_telegram_bot.Bytes.{Bytes, bytes, bytes_eq}
use cryptopulse_telegram_bot.GoError.{plain}
use cryptopulse_telegram_bot.Schema.{PriceRow, Db}
use cryptopulse_telegram_bot.App.{App}
use cryptopulse_telegram_bot.Session.{
  Env, World, Act, Try, Result, ok, err, ◌>>=◌, ◌>>◌, return, fail, handle, begin, exec, query,
  commit, inc, bump, check_context, db_operations_total, binance_requests_total,
}
use cryptopulse_telegram_bot.Alert.Crossings.{
  Progress, capture_price_alert_crossings, process_price_alert_crossings,
}
use cryptopulse_telegram_bot.Pricing.{is_valid_market_price}
use cryptopulse_telegram_bot.Pricing.Cache.{PriceCache, store_at, observe_price_ages}

-- The JSON body of an answer: it cannot be decoded, or it has a symbol and a price.
pub data Ticker : Type 0 where
  undecodable : Ticker
  ticker : Bytes → Bytes → Ticker

-- What becomes of a request: it cannot be created, it has no answer, or a status and a body.
pub data Exchange : Type 0 where
  not_created : Exchange
  unanswered : Exchange
  answer : ℕ → Ticker → Exchange

pub record Market : Type 0 where
  pub exchange : ℕ → Bytes → Exchange
  pub parse_float : Bytes → Result ℕ
  pub time_now : ℕ → ℕ

abbrev pub status_ok : ℕ
status_ok = 200

-- parseMarketPrice
abbrev pub checked_price : Result ℕ → Result ℕ
checked_price (err e) = err e
checked_price (ok price) =
    if not (is_valid_market_price price)
    then err (plain (bytes "price must be finite and greater than zero"))
    else ok price

unfoldable pub parse_market_price : Market → Bytes → Result ℕ
parse_market_price market raw = checked_price (market.parse_float raw)

-- beginPriceObservation: SELECT clock_timestamp()
unfoldable pub begin_price_observation : Env → Try ℕ
begin_price_observation env w = query env (λ clock_timestamp db. clock_timestamp) w

-- INSERT … ON CONFLICT (symbol) DO UPDATE … RETURNING updated_at, at a time of clock_timestamp()
unfoldable pub upsert_row : Bytes → ℕ → ℕ → List PriceRow → List PriceRow
upsert_row symbol price at [] = record { symbol = symbol; price = price; updated_at = at } ∷ []
upsert_row symbol price at (r ∷ rows) =
    if bytes_eq r.symbol symbol
    then record r { price = price; updated_at = at } ∷ rows
    else r ∷ upsert_row symbol price at rows

unfoldable pub upsert_market_price : Bytes → ℕ → ℕ → ℕ → Db → ℕ × Db
upsert_market_price symbol price at now db =
    (at, record db { market_prices = upsert_row symbol price at db.market_prices })

unfoldable pub capture_if : Env → Bool → Bytes → ℕ → ℕ → ℕ → Try (Unit {0})
capture_if env false symbol price started_at stored_at = return tt
capture_if env true symbol price started_at stored_at =
    capture_price_alert_crossings (exec env) env symbol price
      (record { started_at = started_at; stored_at = stored_at })

unfoldable pub upsert_price : Env → Bytes → ℕ → Try ℕ
upsert_price env symbol price w = exec env (upsert_market_price symbol price (env.clock w.calls)) w

-- persistObservedMarketPrice: the price and the crossings that it has to answer for are committed
-- together.
unfoldable pub persist_observed_market_price : Env → App → Bytes → ℕ → ℕ → Try ℕ
persist_observed_market_price env app symbol price started_at =
    if not (is_valid_market_price price)
    then fail (plain (bytes "cannot persist invalid market price"))
    else do
      begin env
      stored_at ← upsert_price env symbol price
      capture_if env (app.price_alerts_enabled && not (started_at == 0)) symbol price started_at
          stored_at
      commit env
      return stored_at

-- What a goroutine of fetchAndCachePrices leaves of the cache.
module _ (env : Env) (app : App) (market : Market) (symbol : Bytes) (started_at : ℕ)
    (cache : PriceCache) where
  abbrev gave_up : String → Act PriceCache
  gave_up outcome w = (cache, (inc (binance_requests_total symbol outcome) w).1)

  abbrev pub price_stored : ℕ → ℕ → Act PriceCache
  price_stored price stored_at w = (
    store_at (market.time_now w.calls) symbol price stored_at cache,
    (inc (binance_requests_total symbol "success")
        (inc (db_operations_total "price_upsert" "success") (bump w)).1).1,
  )

  unfoldable pub fetched_price : Result ℕ → Act PriceCache
  fetched_price (err e) w = gave_up "parse_error" w
  fetched_price (ok price) w =
      handle (price_stored price)
        (λ e v. (cache, (inc (db_operations_total "price_upsert" "error") v).1))
        (persist_observed_market_price env app symbol price started_at w)

  unfoldable pub fetched_ticker : Ticker → Act PriceCache
  fetched_ticker undecodable = gave_up "decode_error"
  fetched_ticker (ticker received raw) =
      if not (bytes_eq received symbol)
      then gave_up "symbol_mismatch"
      else fetched_price (parse_market_price market raw)

  unfoldable pub fetched : Exchange → Act PriceCache
  fetched not_created = gave_up "request_create_error"
  fetched unanswered = gave_up "request_error"
  fetched (answer status body) =
      if not (status == status_ok) then gave_up "bad_status" else fetched_ticker body

  unfoldable pub fetch_price : Act PriceCache
  fetch_price w = fetched (market.exchange w.calls symbol) (bump w)

module _ (env : Env) (app : App) (market : Market) where
  -- The goroutines share only the cache, each at a key of its own, and the database, where what the
  -- others commit is the environment's; they are run here in an order that is an argument.
  unfoldable pub fetch_prices : List Bytes → ℕ → PriceCache → Act PriceCache
  fetch_prices [] started_at cache w =
      (cache, observe_price_ages (market.time_now w.calls) cache (bump w))
  fetch_prices (symbol ∷ symbols) started_at cache w =
      let (cache', w') = fetch_price env app market symbol started_at cache w in
      fetch_prices symbols started_at cache' w'

  unfoldable pub fetch_observed : List Bytes → PriceCache → Act PriceCache
  fetch_observed order cache =
      if app.price_alerts_enabled
      then (λ w.
          handle (λ started_at. fetch_prices order started_at cache)
            (λ e v. (cache, (inc (db_operations_total "price_observation_start" "error") v).1))
            (begin_price_observation env w))
      else fetch_prices order 0 cache

  abbrev crossings_failed : Option Bytes → World → World
  crossings_failed (some canceled) w = w
  crossings_failed none w = (inc (db_operations_total "evaluate_price_alerts" "error") w).1

  abbrev crossings_processed : Progress × World → World
  crossings_processed ((created, none), w) = w
  crossings_processed ((created, some e), w) =
      let (canceled, v) = check_context env w in crossings_failed canceled v

  -- fetchAndCachePrices: the deferred call processes the crossings on every path.
  unfoldable pub fetch_and_cache_prices : ℕ → List Bytes → PriceCache → Act PriceCache
  fetch_and_cache_prices fuel order cache w =
      let (cache', w') = fetch_observed order cache w in
      (cache', crossings_processed (process_price_alert_crossings env app fuel w'))
