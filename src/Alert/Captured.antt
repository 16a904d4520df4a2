-- ===== src/Alert/Captured.antt =====
-- An observation of a price misses no alert whose target it reaches.
use cryptopulse_telegram_bot.Prelude.{
  ℕ, ◌+◌, ◌≤◌, ◌<◌, ◌≡◌, refl, subst, ◌∙◌, inl, inr, ◌||◌, arith, Bool, true, List, [], ◌∷◌, ◌++◌,
  leb, ◌==◌, ==_refl, any, select, Elem, if◌then◌else◌, Bool-cases,
}
use cryptopulse_telegram_bot.Bytes.{Bytes, bytes_eq}
use cryptopulse_telegram_bot.Bytes.Equality.{bytes_eq_refl}
use cryptopulse_telegram_bot.Schema.{AlertRow, CrossingRow, Db}
use cryptopulse_telegram_bot.Table.{order_by}
use cryptopulse_telegram_bot.Table.Laws.{Elem-select, Elem-order_by}
use cryptopulse_telegram_bot.Pricing.{price_freshness_limit}
use cryptopulse_telegram_bot.Alert.Rows.{
  PriceObservation, is_active, is_reached, is_crossed, add_crossing, capture,
}

-- There is a crossing of an alert.
abbrev pub has_crossing : ℕ → List CrossingRow → Bool
has_crossing id crossings = any (λ c. c.alert_id == id) crossings

any_last :
    {A : Type 0} (p : A → Bool) (xs : List A) (y : A) → any p (xs ++ y ∷ []) ≡ (any p xs || p y)
any_last p [] y = ground arith
any_last p (x ∷ xs) y = ground (arith, any_last p xs y)

module _ (price : ℕ) (o : PriceObservation) where
  add_crossing_keeps :
      (id : ℕ) (alerts : List AlertRow) (crossings : List CrossingRow)
      → has_crossing id crossings ≡ true
      → has_crossing id (add_crossing price o alerts crossings) ≡ true
  add_crossing_keeps id [] crossings h = h
  add_crossing_keeps id (a ∷ alerts) crossings h =
      add_crossing_keeps id alerts _ (elim (Bool-cases (has_crossing a.id crossings)) [
        | inl e ↦ rw e h
        | inr e ↦ rw e (any_last (λ c. c.alert_id == id) crossings _ ∙ rw h refl)
      ])

  add_crossing_adds :
      (alerts : List AlertRow) (crossings : List CrossingRow) (a : AlertRow)
      → Elem a alerts
      → has_crossing a.id (add_crossing price o alerts crossings) ≡ true
  add_crossing_adds [] crossings a e = absurd e
  add_crossing_adds (b ∷ alerts) crossings a (inl e) = add_crossing_keeps a.id alerts _ (
      subst
        (λ z.
          has_crossing a.id (
            if has_crossing z.id crossings
            then crossings
            else crossings
              ++ record { alert_id = z.id; price = price; observed_at = o.stored_at } ∷ [])
          ≡ true)
        e
        (elim (Bool-cases (has_crossing a.id crossings)) [
          | inl f ↦ rw f f
          | inr f ↦
              rw f (any_last (λ c. c.alert_id == a.id) crossings _ ∙ rw (f, ==_refl a.id) refl)
        ]))
  add_crossing_adds (b ∷ alerts) crossings a (inr e) = add_crossing_adds alerts _ a e

-- An alert that has to answer to an observed price: it was created and priced before the observation
-- began.
pub record IsDue (symbol : Bytes) (price : ℕ) (o : PriceObservation) (a : AlertRow) : Type 0 where
  pub of_symbol : a.symbol ≡ symbol
  pub still_active : is_active a.status ≡ true
  pub created : a.created_at < o.started_at
  pub based : a.base_price_at ≤ o.started_at
  pub reached : is_reached price a ≡ true

module _ (symbol : Bytes) (price : ℕ) (o : PriceObservation) (clock_timestamp now : ℕ)
    (db : Db) where
  pub capture_misses_none :
      (a : AlertRow)
      → Elem a db.price_alerts
      → IsDue symbol price o a
      → o.stored_at ≤ clock_timestamp
      → clock_timestamp ≤ o.started_at + price_freshness_limit
      → has_crossing a.id (capture symbol price o clock_timestamp now db).1.price_alert_crossings
        ≡ true
  unfolding capture
  capture_misses_none a e due stored fresh =
      add_crossing_adds price o _ db.price_alert_crossings a (
        Elem-order_by _ _ a (
          Elem-select (is_crossed symbol price o clock_timestamp) db.price_alerts a
            (ground (
              arith,
              subst (λ s. bytes_eq a.symbol s ≡ true) due.of_symbol (bytes_eq_refl a.symbol),
              due.still_active,
              due.created,
              due.based,
              due.reached,
            ))
            e))

  -- A crossing that was recorded before is kept.
  pub capture_keeps :
      (id : ℕ)
      → has_crossing id db.price_alert_crossings ≡ true
      → has_crossing id (capture symbol price o clock_timestamp now db).1.price_alert_crossings
        ≡ true
  unfolding capture
  capture_keeps id h =
      add_crossing_keeps price o id
        (order_by (λ a b. leb a.id b.id)
          (select (is_crossed symbol price o clock_timestamp) db.price_alerts))
        db.price_alert_crossings h
