-- ===== src/Examples/Database.antt =====
-- The connections and the schema at concrete inputs.
use cryptopulse_telegram_bot.Prelude.{
  ℕ, ◌+◌, ◌≡◌, ◌↔◌, refl, Bool, true, not, none, some, [], ◌∷◌, All, pos,
}
use cryptopulse_telegram_bot.Bytes.{bytes, bytes_eq}
use cryptopulse_telegram_bot.GoError.{plain}
use cryptopulse_telegram_bot.Session.{ok}
use cryptopulse_telegram_bot.Storage.Lock.{
  bad_conn, answer_lost, answered_with, release_advisory_lock,
}
use cryptopulse_telegram_bot.Storage.Released.{IsGivenBack, release_advisory_lock-IsGivenBack}
use cryptopulse_telegram_bot.Storage.Migrations.{Attempt, apply_migrations}
use cryptopulse_telegram_bot.Storage.Catalog.{
  SchemaObject, table, index, column, constraint, verify_schema,
}
use cryptopulse_telegram_bot.Storage.Verified.{described, names_missing, needed, verify_schema_iff}

-- The unlock has been run, and its answer was lost.
released_example : IsGivenBack (pos 7) (
    release_advisory_lock
      (pos 7)
      (answer_lost (plain (bytes "broken pipe")))
      bad_conn
      none
      (pos 7 ∷ []))
released_example =
    release_advisory_lock-IsGivenBack (pos 7) (answer_lost (plain (bytes "broken pipe"))) bad_conn
      none (pos 7 ∷ []) refl

-- A database whose prices have no constraint.
abbrev unconstrained : SchemaObject → Bool
unconstrained (table t) = true
unconstrained (index i) = true
unconstrained (column t c) = true
unconstrained (constraint c) = not (bytes_eq c (bytes "market_prices_price_check"))

schema_example :
    (verify_schema unconstrained none ≡ described (names_missing unconstrained needed))
    × ((verify_schema unconstrained none ≡ none) ↔ All (λ o. unconstrained o ≡ true) needed)
schema_example = verify_schema_iff unconstrained

test_schema :
    verify_schema unconstrained none
    ≡ some (
        plain (
          bytes
            "missing required database objects after migration: constraint market_prices_price_check"))
unfolding verify_schema
test_schema = refl

abbrev attempt : Attempt
attempt = record {
  connection = none;
  lock = none;
  provider = none;
  raw = bad_conn;
  unlock = answered_with;
  close = none;
}

test_migrations :
    (apply_migrations (λ (version : ℕ). (ok (version + 12), version + 12)) attempt 0).database ≡ 12
unfolding apply_migrations
test_migrations = refl
