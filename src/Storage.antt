-- ===== src/Storage.antt =====
-- internal/storage: connection pools, the release of session-level advisory locks, migrations and the
-- check of the schema. What the driver, database/sql and goose return is an argument.
pub mod Lock
pub mod Migrations
pub mod Released
pub mod Catalog
pub mod Verified
use cryptopulse_telegram_bot.Prelude.{
  ℕ, ◌≡◌, refl, Bool, true, false, Option, none, some, List, [], ◌∷◌, ◌++◌, if◌then◌else◌,
}
use cryptopulse_telegram_bot.Bytes.{Bytes, bytes}
use cryptopulse_telegram_bot.Session.{Result, ok, err}
use cryptopulse_telegram_bot.GoError.{Error, plain, wrapped}

-- postgresPoolError; is_parse_config tells whether errors.As finds a *pgconn.ParseConfigError.
unfoldable pub postgres_pool_error : (Error → Bool) → Bytes → Bytes → Error → Error
postgres_pool_error is_parse_config operation pool_name e =
    let place = operation ++ bytes " postgres " ++ pool_name ++ bytes " pool" in
    if is_parse_config e
    then plain (place ++ bytes ": invalid PostgreSQL connection configuration")
    else wrapped place e

-- The limits of a pool.
pub record Pool : Type 0 where
  pub max_open : ℕ
  pub max_idle : ℕ

-- openPool: sql.Open and the ping succeed or fail; after a failed ping the pool is closed.
unfoldable pub open_pool :
    (Error → Bool) → Option Error → Option Error → Bytes → ℕ → ℕ → Result Pool
unfolding postgres_pool_error
open_pool is_parse_config (some e) ping name max_open max_idle =
    err (postgres_pool_error is_parse_config (bytes "open") name e)
open_pool is_parse_config none (some e) name max_open max_idle =
    err (postgres_pool_error is_parse_config (bytes "ping") name e)
open_pool is_parse_config none none name max_open max_idle =
    ok (record { max_open = max_open; max_idle = max_idle })

-- A configuration that cannot be parsed is reported without anything of the error, which has the
-- password in it.
pub postgres_pool_error_hides :
    (is_parse_config : Error → Bool) (operation pool_name : Bytes) (e e' : Error)
    → is_parse_config e ≡ true
    → is_parse_config e' ≡ true
    → postgres_pool_error is_parse_config operation pool_name e
      ≡ postgres_pool_error is_parse_config operation pool_name e'
unfolding postgres_pool_error
postgres_pool_error_hides is_parse_config operation pool_name e e' h h' = rw (h, h') refl
