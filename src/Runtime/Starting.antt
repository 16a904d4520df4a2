-- ===== src/Runtime/Starting.antt =====
-- Run of internal/app/run.go up to its select: the pools, the migrations, the check of the schema and
-- the client of Telegram, with the deferred calls that close the pools after an error.
use cryptopulse_telegram_bot.Prelude.{ℕ, ◌+◌, Bool, Option, none, some}
use cryptopulse_telegram_bot.Bytes.{Bytes, bytes}
use cryptopulse_telegram_bot.GoError.{Error, wrapped}
use cryptopulse_telegram_bot.Config.{Config}
use cryptopulse_telegram_bot.Workers.{
  notification_worker_count, telegram_reply_worker_count, database_lock_pool_max_open_connections,
}
use cryptopulse_telegram_bot.Telegram.{redact_telegram_error}
use cryptopulse_telegram_bot.Session.{Result, ok, err}
use cryptopulse_telegram_bot.Storage.{Pool, open_pool}
use cryptopulse_telegram_bot.Storage.Migrations.{Attempt, apply_migrations}
use cryptopulse_telegram_bot.Storage.Catalog.{SchemaObject, verify_schema}
use cryptopulse_telegram_bot.Runtime.Stopping.{Runtime, started}

abbrev pub database_query_pool_max_open_connections : ℕ
database_query_pool_max_open_connections = 16

abbrev pub database_query_pool_max_idle_connections : ℕ
database_query_pool_max_idle_connections = 8

abbrev pub database_lock_pool_max_idle_connections : ℕ
database_lock_pool_max_idle_connections = 2

-- A variable of Run that holds a pool
pub data PoolState : Type 0 where
  unopened closed : PoolState
  opened : Pool → PoolState

-- How the calls of libraries come out: sql.Open and the ping of both pools, the calls around goose, the
-- query of the schema, and tgbotapi.NewBotAPIWithClient. The catalog depends on the database.
pub record Answers (D : Type 0) : Type 0 where
  pub is_parse_config : Error → Bool
  pub query_open : Option Error
  pub query_ping : Option Error
  pub attempt : Attempt
  pub exists : D → SchemaObject → Bool
  pub schema_query : Option Error
  pub lock_open : Option Error
  pub lock_ping : Option Error
  pub bot : Option Error

-- The error that Run returns before it serves, the database, the pools, and the program that serves.
pub record Start (D : Type 0) : Type 0 where
  pub failure : Option Error
  pub database : D
  pub query_pool : PoolState
  pub lock_pool : PoolState
  pub runtime : Option Runtime

-- startTracked and `go`: the menu, the ticker of the prices, the cleaner, the workers, and the server.
abbrev pub goroutines : Config → ℕ
goroutines cfg =
    3 + cfg.telegram_update_workers + telegram_reply_worker_count + notification_worker_count + 1

module _ {D : Type 0} (up : D → Result ℕ × D) (a : Answers D) (cfg : Config) where
  -- Leaving Run by an error once the first pool is open
  abbrev pub leave_run : Bytes → Error → D → PoolState → Start D
  leave_run message e d lock_pool = record {
    failure = some (wrapped message e);
    database = d;
    query_pool = closed;
    lock_pool = lock_pool;
    runtime = none;
  }

  unfoldable pub bot_made : Option Error → D → Pool → Pool → Start D
  unfolding redact_telegram_error started
  bot_made (some e) d query lock =
      leave_run (bytes "initialize Telegram API") (redact_telegram_error e cfg.telegram_token) d
        closed
  bot_made none d query lock = record {
    failure = none;
    database = d;
    query_pool = opened query;
    lock_pool = opened lock;
    runtime = some (started (goroutines cfg));
  }

  unfoldable pub lock_opened : Result Pool → D → Pool → Start D
  unfolding bot_made
  lock_opened (err e) d query = leave_run (bytes "database lock pool unreachable") e d unopened
  lock_opened (ok lock) d query = bot_made a.bot d query lock

  unfoldable pub schema_verified : Option Error → D → Pool → Start D
  unfolding lock_opened open_pool
  schema_verified (some e) d query = leave_run (bytes "database schema incompatible") e d unopened
  schema_verified none d query =
      lock_opened
        (open_pool a.is_parse_config a.lock_open a.lock_ping (bytes "lock")
          database_lock_pool_max_open_connections database_lock_pool_max_idle_connections)
        d query

  unfoldable pub migrated : Result ℕ → D → Pool → Start D
  unfolding schema_verified verify_schema
  migrated (err e) d query = leave_run (bytes "database migration failed") e d unopened
  migrated (ok count) d query = schema_verified (verify_schema (a.exists d) a.schema_query) d query

  unfoldable pub query_opened : Result Pool → D → Start D
  unfolding migrated apply_migrations
  query_opened (err e) d = record {
    failure = some (wrapped (bytes "database unreachable") e);
    database = d;
    query_pool = unopened;
    lock_pool = unopened;
    runtime = none;
  }
  query_opened (ok query) d =
      let m = apply_migrations up a.attempt d in migrated m.result m.database query

  unfoldable pub start_run : D → Start D
  unfolding query_opened open_pool
  start_run d =
      query_opened
        (open_pool a.is_parse_config a.query_open a.query_ping (bytes "query")
          database_query_pool_max_open_connections database_query_pool_max_idle_connections)
        d
