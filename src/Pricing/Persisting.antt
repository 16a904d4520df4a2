-- ===== src/Pricing/Persisting.antt =====
-- What persistObservedMarketPrice leaves: a price and the crossings that it has to answer for, in one
-- commit.
use cryptopulse_telegram_bot.Prelude.{
  ℕ, suc, ◌+◌, ◌≤◌, ◌≡◌, ◌⊎◌, refl, subst, sym, inl, inr, arith, Bool, true, false, not, ◌&&◌,
  Option, some, List, [], ◌∷◌, ◌==◌, Elem, Bool-cases, Option-cases,
}
use cryptopulse_telegram_bot.Bytes.{Bytes, bytes_eq}
use cryptopulse_telegram_bot.Bytes.Equality.{bytes_eq_sound, bytes_eq_refl}
use cryptopulse_telegram_bot.GoError.{Error}
use cryptopulse_telegram_bot.Schema.{PriceRow, Db}
use cryptopulse_telegram_bot.Table.{find}
use cryptopulse_telegram_bot.App.{App}
use cryptopulse_telegram_bot.Session.{Env, World, Result, ok, err, bump, continue, commit, return}
use cryptopulse_telegram_bot.Session.Rules.{
  if_then, answered_continue, confirmed_continue, exec_continue,
}
use cryptopulse_telegram_bot.Alert.Input.{alert_symbol}
use cryptopulse_telegram_bot.Alert.Rows.{PriceObservation, capture}
use cryptopulse_telegram_bot.Alert.Crossings.{
  is_unusable, capture_of, capture_price_alert_crossings,
}
use cryptopulse_telegram_bot.Alert.Captured.{
  IsDue, has_crossing, capture_misses_none, capture_keeps,
}
use cryptopulse_telegram_bot.Pricing.{is_valid_market_price, price_freshness_limit}
use cryptopulse_telegram_bot.Pricing.Fetch.{
  upsert_row, upsert_market_price, capture_if, upsert_price, persist_observed_market_price,
}

abbrev pub row_of : Bytes → List PriceRow → Option PriceRow
row_of symbol rows = find (λ r. bytes_eq r.symbol symbol) rows

module _ (symbol : Bytes) (price at : ℕ) where
  row_of-upsert_row :
      (rows : List PriceRow)
      → row_of symbol (upsert_row symbol price at rows)
        ≡ some (record { symbol = symbol; price = price; updated_at = at })
  unfolding upsert_row
  row_of-upsert_row [] = rw (bytes_eq_refl symbol) refl
  row_of-upsert_row (r ∷ rows) = elim (Bool-cases (bytes_eq r.symbol symbol)) [
    | inl e ↦ rw e (rw e (named (bytes_eq_sound r.symbol symbol e)))
    | inr e ↦ rw e (rw e (row_of-upsert_row rows))
  ]
    where
      named :
          r.symbol ≡ symbol
          → some (record r { price = price; updated_at = at })
            ≡ some (record { symbol = symbol; price = price; updated_at = at })
      named e = cc

  row_of_other :
      (other : Bytes) (rows : List PriceRow)
      → bytes_eq symbol other ≡ false
      → row_of other (upsert_row symbol price at rows) ≡ row_of other rows
  unfolding upsert_row
  row_of_other other [] h = rw h refl
  row_of_other other (r ∷ rows) h = elim (Bool-cases (bytes_eq r.symbol symbol)) [
    | inl e ↦ rw e (
        let f : bytes_eq r.symbol other ≡ false =
          subst (λ z. bytes_eq z other ≡ false) (sym (bytes_eq_sound r.symbol symbol e)) h in
        rw f refl)
    | inr e ↦ rw e (elim (Bool-cases (bytes_eq r.symbol other)) [
      | inl f ↦ rw f refl
      | inr f ↦ rw f (row_of_other other rows h)
    ])
  ]

module _ (env : Env) (app : App) (symbol : Bytes) (price started_at : ℕ) (w : World) where
  -- The database as the first statement finds it, and the times that the database gives.
  abbrev pub found : Db
  found = env.others (suc w.calls) w.db

  abbrev pub stored_at : ℕ
  stored_at = env.clock (suc w.calls)

  abbrev pub captured_at : ℕ
  captured_at = env.clock (suc (suc w.calls))

  abbrev pub observation : PriceObservation
  observation = record { started_at = started_at; stored_at = stored_at }

  pub record IsPersisted (d : Db) : Type 0 where
    pub valid : is_valid_market_price price ≡ true
    pub priced :
        row_of symbol d.market_prices
        ≡ some (record { symbol = symbol; price = price; updated_at = stored_at })
    pub others_priced :
        (other : Bytes)
        → bytes_eq symbol other ≡ false
        → row_of other d.market_prices ≡ row_of other found.market_prices
    pub due_crossed :
        app.price_alerts_enabled ≡ true
        → (coin : Bytes) → alert_symbol symbol ≡ some coin
        → stored_at ≤ captured_at
        → captured_at ≤ started_at + price_freshness_limit
        → (a : _) → Elem a found.price_alerts
        → IsDue symbol price observation a
        → has_crossing a.id d.price_alert_crossings ≡ true
    pub crossings_kept :
        (id : ℕ)
        → has_crossing id found.price_alert_crossings ≡ true
        → has_crossing id d.price_alert_crossings ≡ true
    pub alerts_kept :
        (d.price_alerts ≡ found.price_alerts) × (d.notification_jobs ≡ found.notification_jobs)

  pub data PersistOutcome (r : Result ℕ × World) : Type 0 where
    persisted : r.0 ≡ ok stored_at → IsPersisted r.1.db → PersistOutcome r
    broken : (e : Error) → r.0 ≡ err e → (r.1.db ≡ w.db) ⊎ (r.1.db ≡ found) → PersistOutcome r
    lost : (e : Error) → r.0 ≡ err e → IsPersisted r.1.db → PersistOutcome r

  -- The commit of a transaction that has written what it has to.
  ending :
      (v : World)
      → v.db ≡ found
      → IsPersisted v.view
      → PersistOutcome (continue (λ done. return stored_at) (commit env v))
  ending v same done =
      confirmed_continue PersistOutcome (λ u. return stored_at) (env.commit v.calls) _ tt _
        (λ m. broken _ refl (inr same)) (λ m. lost _ refl done) (persisted refl done)

  priced_db : Db
  priced_db = (upsert_market_price symbol price stored_at 0 found).1

  unused :
      is_valid_market_price price ≡ true
      → (app.price_alerts_enabled ≡ true
          → (coin : Bytes) → alert_symbol symbol ≡ some coin
          → started_at ≡ 0)
      → IsPersisted priced_db
  unfolding upsert_market_price priced_db
  unused valid none_due = record {
    valid = valid;
    priced = row_of-upsert_row symbol price stored_at found.market_prices;
    others_priced = λ other h. row_of_other symbol price stored_at other found.market_prices h;
    due_crossed = λ on coin c s f a e due. absurd (ground (arith, none_due on coin c, due.created));
    crossings_kept = λ id h. h;
    alerts_kept = (refl, refl);
  }

  used :
      is_valid_market_price price ≡ true
      → (now : ℕ) → IsPersisted (capture symbol price observation captured_at now priced_db).1
  unfolding upsert_market_price priced_db capture
  used valid now = record {
    valid = valid;
    priced = row_of-upsert_row symbol price stored_at found.market_prices;
    others_priced = λ other h. row_of_other symbol price stored_at other found.market_prices h;
    due_crossed = λ on coin c s f a e due.
        capture_misses_none symbol price observation captured_at now priced_db a e due s f;
    crossings_kept = λ id h. capture_keeps symbol price observation captured_at now priced_db id h;
    alerts_kept = (refl, refl);
  }

  -- The world after the upsert.
  upserted : World
  upserted = record w {
    db = found;
    view = priced_db;
    tx_now = env.clock w.calls;
    writing = true;
    calls = suc (suc w.calls);
  }

  captured :
      (b : Bool)
      → is_valid_market_price price ≡ true
      → (b ≡ false → app.price_alerts_enabled ≡ true → started_at ≡ 0)
      → PersistOutcome (
          continue
            (λ done v. continue (λ committed. return stored_at) (commit env v))
            (capture_if env b symbol price started_at stored_at upserted))
  unfolding capture_if capture_price_alert_crossings upserted capture_of continue
  captured false valid off = (ending upserted refl (unused valid (λ on coin c. off refl on)))
  captured true valid off = elim (Option-cases (alert_symbol symbol)) [
    | inl e ↦
        rw (e, capture_of)
          ((ending upserted refl (unused valid (λ on coin c. absurd (ground (arith, e, c))))))
    | inr (coin, e) ↦
        rw (e, capture_of)
          (elim (Bool-cases (is_unusable price observation)) [
            | inl f ↦ rw f (broken _ refl (inr refl))
            | inr f ↦ rw f (
                exec_continue env PersistOutcome _ (capture symbol price observation captured_at)
                  upserted (λ m. broken _ refl (inr refl)) (ending _ refl (used valid _)))
          ])
  ]

  -- The price of a coin and the crossings that it has to answer for are committed together or not at all.
  -- If persistObservedMarketPrice returns a time, then the price is valid, the table has it for the coin
  -- with the time that is returned, and the prices of other coins, the alerts and the jobs are those
  -- that the first statement found; no crossing that was recorded is lost; and if alerts are enabled and
  -- the coin is one that alerts support, then every active alert of the coin that was created and
  -- priced before the observation began and whose target is reached has a crossing, provided that the
  -- statement that records them runs after the price is stored and within a minute of the
  -- observation. If it returns an error, then either it has written nothing, or all of this has
  -- been committed and the confirmation was lost.
  pub persist_observed_market_price-PersistOutcome :
      PersistOutcome (persist_observed_market_price env app symbol price started_at w)
  unfolding persist_observed_market_price upsert_price upserted upsert_market_price priced_db
  persist_observed_market_price-PersistOutcome =
      if_then PersistOutcome (not (is_valid_market_price price)) _ _ w
        (λ h. broken _ refl (inl refl))
        (λ h.
          answered_continue PersistOutcome _ (env.failure w.calls) _ tt _
            (λ m. broken _ refl (inl refl))
            (exec_continue env PersistOutcome _ (upsert_market_price symbol price stored_at)
              (record (bump w) { view = w.db; tx_now = env.clock w.calls; writing = false })
              (λ m. broken _ refl (inr refl))
              (captured (app.price_alerts_enabled && not (started_at == 0)) (ground (arith, h))
                (λ off on. ground (arith, off, on)))))
