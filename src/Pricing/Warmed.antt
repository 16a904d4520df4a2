-- ===== src/Pricing/Warmed.antt =====
-- What a restart finds: the cache that is warmed up from the table of prices.
use cryptopulse_telegram_bot.Prelude.{
  ℕ, suc, ◌≢◌, ◌≡◌, refl, subst, sym, ap, ◌∙◌, inl, inr, arith, Bool, true, false, not, Option,
  none, some, List, [], ◌∷◌, ◌==◌, if◌then◌else◌, Bool-cases,
}
use cryptopulse_telegram_bot.Bytes.{Bytes, bytes_eq}
use cryptopulse_telegram_bot.Bytes.Equality.{get, bytes_eq_sound}
use cryptopulse_telegram_bot.Schema.{PriceRow, Db}
use cryptopulse_telegram_bot.Update.{PriceEntry}
use cryptopulse_telegram_bot.App.{App}
use cryptopulse_telegram_bot.Session.{Env, World, Result, ok, err, handle, query, answered}
use cryptopulse_telegram_bot.Session.Rules.{handle_then}
use cryptopulse_telegram_bot.Pricing.{is_valid_market_price}
use cryptopulse_telegram_bot.Pricing.Cache.{
  PriceCache, load, store_at, next_entry, warm_row, warm_rows, warmup_cache,
}
use cryptopulse_telegram_bot.Pricing.Persisting.{
  row_of, PersistOutcome, persisted, broken, lost, persist_observed_market_price-PersistOutcome,
}
use cryptopulse_telegram_bot.Pricing.Fetch.{persist_observed_market_price}
use cryptopulse_telegram_bot.Pricing.Cached.{load-store_at, AllValid, store_at-AllValid}

-- The primary key of market_prices
abbrev pub HasKey : List PriceRow → Type 0
HasKey [] = Unit {0}
HasKey (r ∷ rows) = (row_of r.symbol rows ≡ none) × HasKey rows

-- What a warm-up makes of the row of a coin, on top of what the cache has.
abbrev pub warmed : ℕ → Option PriceRow → Option PriceEntry → Option PriceEntry
warmed now none e = e
warmed now (some r) e =
    if not (is_valid_market_price r.price)
    then e
    else some (next_entry e r.price (if r.updated_at == 0 then now else r.updated_at))

module _ (now : ℕ) where
  load-warm_row :
      (r : PriceRow) (symbol : Bytes) (cache : PriceCache)
      → load symbol (warm_row now (some r) cache) ≡ (
          if bytes_eq r.symbol symbol
          then warmed now (some r) (load symbol cache)
          else load symbol cache)
  unfolding warm_row
  load-warm_row r symbol cache = elim (Bool-cases (is_valid_market_price r.price)) [
    | inl v ↦ rw v (
        load-store_at now r.symbol symbol r.price r.updated_at cache
        ∙ same (bytes_eq r.symbol symbol) refl)
    | inr v ↦
        rw v
          (elim (Bool-cases (bytes_eq r.symbol symbol)) [ inl e ↦ rw e refl | inr e ↦ rw e refl ])
  ]
    where
      entry : Option PriceEntry → Option PriceEntry
      entry o = some (next_entry o r.price (if r.updated_at == 0 then now else r.updated_at))

      same :
          (b : Bool)
          → bytes_eq r.symbol symbol ≡ b
          → (if b then entry (load r.symbol cache) else load symbol cache)
            ≡ (if b then entry (load symbol cache) else load symbol cache)
      same true e = ap (λ s. entry (load s cache)) (bytes_eq_sound r.symbol symbol e)
      same false e = refl

  load-warm_rows :
      (rows : List PriceRow) (symbol : Bytes) (cache : PriceCache)
      → HasKey rows
      → load symbol (warm_rows now (λ r. some r) rows cache)
        ≡ warmed now (row_of symbol rows) (load symbol cache)
  unfolding warm_rows
  load-warm_rows [] symbol cache key = refl
  load-warm_rows (r ∷ rows) symbol cache key = elim (Bool-cases (bytes_eq r.symbol symbol)) [
    | inl e ↦ rw e (
        load-warm_rows rows symbol (warm_row now (some r) cache) key.1
        ∙ ap (λ o. warmed now o (load symbol (warm_row now (some r) cache)))
            (subst (λ s. row_of s rows ≡ none) (bytes_eq_sound r.symbol symbol e) key.0)
        ∙ load-warm_row r symbol cache
        ∙ rw e refl)
    | inr e ↦ rw e (
        load-warm_rows rows symbol (warm_row now (some r) cache) key.1
        ∙ ap (warmed now (row_of symbol rows)) (load-warm_row r symbol cache ∙ rw e refl))
  ]

  warm_row-AllValid :
      (o : Option PriceRow) (cache : PriceCache) → AllValid cache → AllValid (warm_row now o cache)
  unfolding warm_row
  warm_row-AllValid none cache all = all
  warm_row-AllValid (some r) cache all = checked (is_valid_market_price r.price) refl
    where
      checked :
          (b : Bool)
          → is_valid_market_price r.price ≡ b
          → AllValid (if not b then cache else store_at now r.symbol r.price r.updated_at cache)
      checked true v = store_at-AllValid now r.symbol r.price r.updated_at cache v all
      checked false v = all

  warm_rows-AllValid :
      (scan : PriceRow → Option PriceRow) (rows : List PriceRow) (cache : PriceCache)
      → AllValid cache
      → AllValid (warm_rows now scan rows cache)
  unfolding warm_rows
  warm_rows-AllValid scan [] cache all = all
  warm_rows-AllValid scan (r ∷ rows) cache all =
      warm_rows-AllValid scan rows (warm_row now (scan r) cache)
        (warm_row-AllValid (scan r) cache all)

pub warmup_cache-AllValid :
    (env : Env) (now : ℕ) (scan : PriceRow → Option PriceRow)
    (received : List PriceRow → List PriceRow) (cache : PriceCache) (w : World)
    → AllValid cache
    → AllValid (warmup_cache env now scan received cache w).0
unfolding warmup_cache
warmup_cache-AllValid env now scan received cache w all =
    handle_then (λ r. AllValid r.0) _ _ (query env (λ n db. db.market_prices) w)
      (λ rows e. warm_rows-AllValid now scan (received rows) cache all) (λ e h. all)

module _ (env : Env) (app : App) (symbol : Bytes) (price started_at at : ℕ) (w : World) where
  -- The database after persistObservedMarketPrice.
  abbrev pub after : Db
  after = (persist_observed_market_price env app symbol price started_at w).1.db

  row_after :
      (r : Result ℕ × World)
      → r.0 ≡ ok at
      → PersistOutcome env app symbol price started_at w r
      → (is_valid_market_price price ≡ true)
        × (row_of symbol r.1.db.market_prices
            ≡ some (record { symbol = symbol; price = price; updated_at = at }))
  row_after r e (persisted h p) = (
    p.valid,
    p.priced
        ∙ ap (λ t. some (record { symbol = symbol; price = price; updated_at = t }))
            (same (sym h ∙ e)),
  )
    where
      same : ok (env.clock (suc w.calls)) ≡ ok at → env.clock (suc w.calls) ≡ at
      same e = cc
  row_after r e (broken x h p) = absurd (differ (sym e ∙ h))
    where
      differ : ok at ≡ err x → ⊥
      differ h = cc
  row_after r e (lost x h p) = absurd (differ (sym e ∙ h))
    where
      differ : ok at ≡ err x → ⊥
      differ h = cc

  -- A price survives a restart. If persistObservedMarketPrice has returned a time that is not Go's zero
  -- time, then a process that starts with an empty cache and reads the whole table in that state, with
  -- no coin in two rows, has the price for the coin in its cache, as the current and as the previous
  -- one, and with that time.
  pub load-warmup_cache :
      (restarted : Env) (now : ℕ) (v : World)
      → (persist_observed_market_price env app symbol price started_at w).0 ≡ ok at
      → at ≢ 0
      → HasKey after.market_prices
      → restarted.failure v.calls ≡ none
      → restarted.others v.calls v.db ≡ after
      → load symbol (warmup_cache restarted now (λ r. some r) (λ rows. rows) [] v).0
        ≡ some (record { current = price; previous = price; updated_at = at })
  unfolding warmup_cache handle answered load get
  load-warmup_cache restarted now v stored later key up seen =
      let row =
        row_after (persist_observed_market_price env app symbol price started_at w) stored
          (persist_observed_market_price-PersistOutcome env app symbol price started_at w) in
      let not_zero : (at == 0) ≡ false = ground (arith, later) in
      rw up (
        rw seen (
          load-warm_rows now after.market_prices symbol [] key
          ∙ ap (λ o. warmed now o none) row.1
          ∙ rw row.0 (rw not_zero refl)))
