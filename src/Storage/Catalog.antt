-- ===== src/Storage/Catalog.antt =====
-- VerifySchema of internal/storage/schema.go: the objects that it asks the catalog of PostgreSQL for.
use cryptopulse_telegram_bot.Prelude.{
  Bool, not, Option, none, some, List, [], ◌∷◌, ◌++◌, map, if◌then◌else◌,
}
use cryptopulse_telegram_bot.Bytes.{Bytes, bytes}
use cryptopulse_telegram_bot.GoError.{Error, plain, wrapped}

-- An object of the schema public.
pub data SchemaObject : Type 0 where
  table : Bytes → SchemaObject
  index : Bytes → SchemaObject
  column : Bytes → Bytes → SchemaObject
  constraint : Bytes → SchemaObject

-- The columns of the query, in their order.
abbrev pub selected : List SchemaObject
selected =
    table (bytes "subscribers")
    ∷ table (bytes "market_prices")
    ∷ table (bytes "notification_jobs")
    ∷ table (bytes "telegram_updates")
    ∷ table (bytes "telegram_replies")
    ∷ table (bytes "price_alerts")
    ∷ index (bytes "notification_jobs_one_per_price_alert")
    ∷ table (bytes "price_alert_crossings")
    ∷ table (bytes "telegram_mutation_versions")
    ∷ table (bytes "telegram_update_stream")
    ∷ column (bytes "telegram_updates") (bytes "stream_epoch")
    ∷ column (bytes "subscribers") (bytes "delivery_suspended_until")
    ∷ column (bytes "notification_jobs") (bytes "claim_token")
    ∷ column (bytes "notification_jobs") (bytes "canceled_at")
    ∷ column (bytes "telegram_updates") (bytes "shard_id")
    ∷ constraint (bytes "market_prices_price_check")
    ∷ []

-- The variables of the function.
pub record Inspected : Type 0 where
  pub subscribers_table : Bool
  pub market_prices_table : Bool
  pub notification_jobs_table : Bool
  pub telegram_updates_table : Bool
  pub telegram_replies_table : Bool
  pub delivery_cooldown_column : Bool
  pub job_claim_token_column : Bool
  pub job_canceled_at_column : Bool
  pub update_shard_column : Bool
  pub market_price_constraint : Bool
  pub price_alerts_table : Bool
  pub price_alert_jobs_index : Bool
  pub price_alert_crossings_table : Bool
  pub telegram_mutation_versions_table : Bool
  pub telegram_update_stream_table : Bool
  pub update_epoch_column : Bool

-- Scan: the columns go into the variables in the order of its arguments; none for another number.
abbrev pub scan : List Bool → Option Inspected
scan (v0 ∷ v1 ∷ v2 ∷ v3 ∷ v4 ∷ v5 ∷ v6 ∷ v7 ∷ v8 ∷ v9 ∷ v10 ∷ v11 ∷ v12 ∷ v13 ∷ v14 ∷ v15 ∷ []) =
    some (record {
      subscribers_table = v0;
      market_prices_table = v1;
      notification_jobs_table = v2;
      telegram_updates_table = v3;
      telegram_replies_table = v4;
      price_alerts_table = v5;
      price_alert_jobs_index = v6;
      price_alert_crossings_table = v7;
      telegram_mutation_versions_table = v8;
      telegram_update_stream_table = v9;
      update_epoch_column = v10;
      delivery_cooldown_column = v11;
      job_claim_token_column = v12;
      job_canceled_at_column = v13;
      update_shard_column = v14;
      market_price_constraint = v15;
    })
scan _ = none

-- The objects that are required, with their names.
abbrev pub required : Inspected → List (Bytes × Bool)
required v =
    (bytes "table subscribers", v.subscribers_table)
    ∷ (bytes "table market_prices", v.market_prices_table)
    ∷ (bytes "table notification_jobs", v.notification_jobs_table)
    ∷ (bytes "table telegram_updates", v.telegram_updates_table)
    ∷ (bytes "table telegram_replies", v.telegram_replies_table)
    ∷ (bytes "table price_alerts", v.price_alerts_table)
    ∷ (bytes "table price_alert_crossings", v.price_alert_crossings_table)
    ∷ (bytes "table telegram_mutation_versions", v.telegram_mutation_versions_table)
    ∷ (bytes "table telegram_update_stream", v.telegram_update_stream_table)
    ∷ (bytes "column telegram_updates.stream_epoch", v.update_epoch_column)
    ∷ (bytes "index notification_jobs_one_per_price_alert", v.price_alert_jobs_index)
    ∷ (bytes "column subscribers.delivery_suspended_until", v.delivery_cooldown_column)
    ∷ (bytes "column notification_jobs.claim_token", v.job_claim_token_column)
    ∷ (bytes "column notification_jobs.canceled_at", v.job_canceled_at_column)
    ∷ (bytes "column telegram_updates.shard_id", v.update_shard_column)
    ∷ (bytes "constraint market_prices_price_check", v.market_price_constraint)
    ∷ []

abbrev pub missing : List (Bytes × Bool) → List Bytes
missing [] = []
missing ((name, ready) ∷ objects) =
    let rest = missing objects in if not ready then name ∷ rest else rest

-- strings.Join(names, ", ")
abbrev pub join_names : List Bytes → Bytes
join_names [] = []
join_names (n ∷ []) = n
join_names (n ∷ m ∷ names) = n ++ bytes ", " ++ join_names (m ∷ names)

abbrev pub reported : List Bytes → Option Error
reported [] = none
reported (n ∷ names) =
    some (
      plain (bytes "missing required database objects after migration: " ++ join_names (n ∷ names)))

abbrev pub scan_error : Error
scan_error = plain (bytes "sql: expected a different number of destination arguments in Scan")

abbrev verified : Option Inspected → Option Error
verified none = some (wrapped (bytes "inspect database schema") scan_error)
verified (some v) = reported (missing (required v))

abbrev inspected : (SchemaObject → Bool) → Option Error → Option Error
inspected exists (some e) = some (wrapped (bytes "inspect database schema") e)
inspected exists none = verified (scan (map exists selected))

-- VerifySchema, on what the catalog has and on the error of the query.
unfoldable pub verify_schema : (SchemaObject → Bool) → Option Error → Option Error
verify_schema exists failure = inspected exists failure
