-- ===== src/Pricing/Cached.antt =====
-- What the cache of prices holds: valid prices, which the exchange has quoted and the database has.
use cryptopulse_telegram_bot.Prelude.{
  ℕ, suc, ◌≡◌, refl, subst, sym, ap, ◌∙◌, arith, Bool, true, false, not, Option, none, some, List,
  [], ◌∷◌, ◌==◌, if◌then◌else◌,
}
use cryptopulse_telegram_bot.Bytes.{Bytes, bytes_eq}
use cryptopulse_telegram_bot.Bytes.Equality.{get-put, bytes_eq_sound}
use cryptopulse_telegram_bot.GoError.{Error}
use cryptopulse_telegram_bot.App.{App}
use cryptopulse_telegram_bot.Update.{PriceEntry}
use cryptopulse_telegram_bot.Session.{Env, World, Result, ok, err}
use cryptopulse_telegram_bot.Session.Rules.{handle_then, act_if_then}
use cryptopulse_telegram_bot.Pricing.{is_valid_market_price}
use cryptopulse_telegram_bot.Pricing.Cache.{PriceCache, load, next_entry, store_at}
use cryptopulse_telegram_bot.Pricing.Fetch.{
  Market, begin_price_observation, price_stored, Exchange, Ticker, not_created, unanswered, answer,
  undecodable, ticker, status_ok, parse_market_price, persist_observed_market_price, fetched_price,
  fetched_ticker, fetched, fetch_price, fetch_prices, fetch_observed, fetch_and_cache_prices,
}
use cryptopulse_telegram_bot.Pricing.Persisting.{
  IsPersisted, PersistOutcome, persisted, broken, lost,
  persist_observed_market_price-PersistOutcome,
}

pub load-store_at :
    (now : ℕ) (symbol other : Bytes) (price at : ℕ) (cache : PriceCache)
    → load other (store_at now symbol price at cache) ≡ (
        if bytes_eq symbol other
        then some (next_entry (load symbol cache) price (if at == 0 then now else at))
        else load other cache)
unfolding load store_at
load-store_at now symbol other price at cache =
    get-put symbol other (next_entry (load symbol cache) price (if at == 0 then now else at)) cache

-- The prices of an entry are valid.
abbrev pub IsValidEntry : PriceEntry → Type 0
IsValidEntry e =
    (is_valid_market_price e.current ≡ true) × (is_valid_market_price e.previous ≡ true)

abbrev pub AllValid : PriceCache → Type 0
AllValid cache = (symbol : Bytes) (e : PriceEntry) → load symbol cache ≡ some e → IsValidEntry e

next_entry-IsValid :
    (o : Option PriceEntry) (price at : ℕ)
    → ((e : PriceEntry) → o ≡ some e → IsValidEntry e)
    → is_valid_market_price price ≡ true
    → IsValidEntry (next_entry o price at)
next_entry-IsValid none price at h v = (v, v)
next_entry-IsValid (some old) price at h v = (v, (h old refl).0)

pub store_at-AllValid :
    (now : ℕ) (symbol : Bytes) (price at : ℕ) (cache : PriceCache)
    → is_valid_market_price price ≡ true
    → AllValid cache
    → AllValid (store_at now symbol price at cache)
store_at-AllValid now symbol price at cache v all other e h =
    chosen (bytes_eq symbol other) (sym (load-store_at now symbol other price at cache) ∙ h)
  where
    entry : PriceEntry
    entry = next_entry (load symbol cache) price (if at == 0 then now else at)

    same : some entry ≡ some e → entry ≡ e
    same e = cc

    chosen : (b : Bool) → (if b then some entry else load other cache) ≡ some e → IsValidEntry e
    chosen true i =
        subst IsValidEntry (same i) (next_entry-IsValid (load symbol cache) price _ (all symbol) v)
    chosen false i = all other e i

module _ (env : Env) (app : App) (market : Market) (symbol : Bytes) (started_at : ℕ)
    (cache : PriceCache) (w : World) where
  abbrev pub asked : World
  asked = record w { calls = suc w.calls }

  -- The exchange has answered a request of this coin with this price.
  pub record IsQuoted (price : ℕ) : Type 0 where
    pub raw : Bytes
    pub quoted : market.exchange w.calls symbol ≡ answer status_ok (ticker symbol raw)
    pub parsed : parse_market_price market raw ≡ ok price

  pub data FetchOutcome (r : PriceCache × World) : Type 0 where
    unchanged : r.0 ≡ cache → FetchOutcome r
    refreshed :
        (price stored_at now : ℕ)
        → IsQuoted price
        → IsPersisted env app symbol price started_at asked r.1.db
        → r.0 ≡ store_at now symbol price stored_at cache
        → stored_at ≡ env.clock (suc (suc w.calls))
        → FetchOutcome r

  differ : (at : ℕ) (e : Error) → ok at ≡ err e → ⊥
  differ at e h = cc

  same_time : (at at' : ℕ) → ok at ≡ ok at' → at ≡ at'
  same_time at at' h = cc

  stored_as :
      (price : ℕ)
      → IsQuoted price
      → (r : Result ℕ × World) (at : ℕ) → r.0 ≡ ok at
      → PersistOutcome env app symbol price started_at asked r
      → FetchOutcome (price_stored env app market symbol started_at cache price at r.1)
  stored_as price q r at e (persisted h p) =
      refreshed price at (market.time_now r.1.calls) q p refl (same_time _ _ (sym e ∙ h))
  stored_as price q r at e (broken x h p) = absurd (differ _ _ (sym e ∙ h))
  stored_as price q r at e (lost x h p) = absurd (differ _ _ (sym e ∙ h))

  of_price :
      (o : Result ℕ)
      → ((price : ℕ) → o ≡ ok price → IsQuoted price)
      → FetchOutcome (fetched_price env app market symbol started_at cache o asked)
  unfolding fetched_price
  of_price (err e) q = unchanged refl
  of_price (ok price) q =
      handle_then FetchOutcome _ _
        (persist_observed_market_price env app symbol price started_at asked)
        (λ at e.
          stored_as price (q price refl) _ at e
            (persist_observed_market_price-PersistOutcome env app symbol price started_at asked))
        (λ e h. unchanged refl)

  of_ticker :
      (t : Ticker)
      → market.exchange w.calls symbol ≡ answer status_ok t
      → FetchOutcome (fetched_ticker env app market symbol started_at cache t asked)
  unfolding fetched_ticker
  of_ticker undecodable h = unchanged refl
  of_ticker (ticker received raw) h =
      act_if_then FetchOutcome (not (bytes_eq received symbol)) _ _ asked (λ no. unchanged refl)
        (λ same. of_price (parse_market_price market raw) (λ price parsed. record {
          raw = raw;
          quoted =
              h
              ∙ ap (λ s. answer status_ok (ticker s raw))
                  (bytes_eq_sound received symbol (ground (arith, same)));
          parsed = parsed;
        }))

  of_exchange :
      (x : Exchange)
      → market.exchange w.calls symbol ≡ x
      → FetchOutcome (fetched env app market symbol started_at cache x asked)
  unfolding fetched
  of_exchange not_created h = unchanged refl
  of_exchange unanswered h = unchanged refl
  of_exchange (answer status body) h =
      act_if_then FetchOutcome (not (status == status_ok)) _ _ asked (λ no. unchanged refl)
        (λ good. of_ticker body (h ∙ ap (λ s. answer s body) (ground (arith, good))))

  -- The goroutine of a coin leaves the cache as it was, or it stores a price there, at a time of the
  -- database's clock. Then the exchange has answered its request with status 200, with this coin's
  -- symbol and with a text that parses to this price, and when it stores the price, IsPersisted
  -- holds: the database has the price for the coin at that time, committed together with the crossings
  -- of the alerts that are due.
  pub fetch_price-FetchOutcome : FetchOutcome (fetch_price env app market symbol started_at cache w)
  unfolding fetch_price
  fetch_price-FetchOutcome = of_exchange (market.exchange w.calls symbol) refl

fetch_price-AllValid :
    (env : Env) (app : App) (market : Market) (symbol : Bytes) (started_at : ℕ) (cache : PriceCache)
    (w : World)
    → AllValid cache
    → AllValid (fetch_price env app market symbol started_at cache w).0
fetch_price-AllValid env app market symbol started_at cache w all =
    kept (fetch_price env app market symbol started_at cache w)
      (fetch_price-FetchOutcome env app market symbol started_at cache w)
  where
    kept :
        (r : PriceCache × World)
        → FetchOutcome env app market symbol started_at cache w r
        → AllValid r.0
    kept r (unchanged e) = subst AllValid (sym e) all
    kept r (refreshed price at now q p e c) =
        subst AllValid (sym e) (store_at-AllValid now symbol price at cache p.valid all)

module _ (env : Env) (app : App) (market : Market) where
  fetch_prices-AllValid :
      (symbols : List Bytes) (started_at : ℕ) (cache : PriceCache) (w : World)
      → AllValid cache
      → AllValid (fetch_prices env app market symbols started_at cache w).0
  unfolding fetch_prices
  fetch_prices-AllValid [] started_at cache w all = all
  fetch_prices-AllValid (s ∷ symbols) started_at cache w all =
      fetch_prices-AllValid symbols started_at (fetch_price env app market s started_at cache w).0
        (fetch_price env app market s started_at cache w).1
        (fetch_price-AllValid env app market s started_at cache w all)

  -- The cache of prices holds only valid prices, as current and as previous ones: a round of
  -- fetchAndCachePrices keeps this, whatever the exchange answers, whatever fails, and in whatever
  -- order the coins are fetched.
  pub fetch_and_cache_prices-AllValid :
      (fuel : ℕ) (order : List Bytes) (cache : PriceCache) (w : World)
      → AllValid cache
      → AllValid (fetch_and_cache_prices env app market fuel order cache w).0
  unfolding fetch_and_cache_prices fetch_observed
  fetch_and_cache_prices-AllValid fuel order cache w all =
      act_if_then (λ r. AllValid r.0) app.price_alerts_enabled _ _ w
        (λ on.
          handle_then (λ r. AllValid r.0) _ _ (begin_price_observation env w)
            (λ started e. fetch_prices-AllValid order started cache _ all) (λ e h. all))
        (λ off. fetch_prices-AllValid order 0 cache w all)
