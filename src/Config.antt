-- ===== src/Config.antt =====
-- internal/config/config.go: the validation of the environment variables. A variable that is not set is
-- empty, as for os.Getenv; what a .env file adds is part of the environment that is read.
pub mod Valid
use cryptopulse_telegram_bot.Prelude.{
  ℕ, Bool, true, false, ◌||◌, Option, none, some, List, [], ◌∷◌, ◌++◌, String, ℤ, pos, negsuc, leb,
  ltb, leb_ℤ, if◌then◌else◌,
}
use cryptopulse_telegram_bot.Bytes.{Bytes, bytes, bytes_eq, format_int}
use cryptopulse_telegram_bot.GoError.{Error, plain}
use cryptopulse_telegram_bot.Strconv.{atoi}
use cryptopulse_telegram_bot.Workers.{max_telegram_update_worker_count}
use cryptopulse_telegram_bot.Session.{Result, ok, err}

pub record Config : Type 0 where
  pub database_url : Bytes
  pub telegram_token : Bytes
  pub webhook_secret : Bytes
  pub cron_secret : Bytes
  pub metrics_secret : Bytes
  pub port : Bytes
  pub telegram_update_workers : ℕ
  pub price_alerts_enabled : Bool

abbrev pub Environment : Type 0
Environment = String → Bytes

abbrev pub is_empty : Bytes → Bool
is_empty [] = true
is_empty (c ∷ text) = false

-- A value of at least 1, if it is a number.
abbrev pub positive_value : String → Option ℤ → Result ℕ
positive_value name (some (pos n)) =
    if leb 1 n then ok n else err (plain (bytes name ++ bytes " must be a positive integer"))
positive_value name (some (negsuc n)) =
    err (plain (bytes name ++ bytes " must be a positive integer"))
positive_value name none = err (plain (bytes name ++ bytes " must be a positive integer"))

-- optionalPositiveInt
unfoldable pub optional_positive_int : Environment → String → ℕ → Result ℕ
optional_positive_int env name default_value =
    if is_empty (env name) then ok default_value else positive_value name (atoi (env name))

-- strconv.ParseBool
unfoldable pub parse_bool : Bytes → Option Bool
parse_bool raw =
    if bytes_eq raw (bytes "1")
      || bytes_eq raw (bytes "t")
      || bytes_eq raw (bytes "T")
      || bytes_eq raw (bytes "TRUE")
      || bytes_eq raw (bytes "true")
      || bytes_eq raw (bytes "True")
    then some true
    else if bytes_eq raw (bytes "0")
        || bytes_eq raw (bytes "f")
        || bytes_eq raw (bytes "F")
        || bytes_eq raw (bytes "FALSE")
        || bytes_eq raw (bytes "false")
        || bytes_eq raw (bytes "False")
    then some false
    else none

unfoldable pub alerts_enabled : Environment → Option Bool
alerts_enabled env =
    if is_empty (env "PRICE_ALERTS_ENABLED")
    then some false
    else parse_bool (env "PRICE_ALERTS_ENABLED")

-- Port
unfoldable pub port : Environment → Bytes
port env = if is_empty (env "PORT") then bytes "8080" else env "PORT"

abbrev pub config_of : Environment → ℕ → Bool → Config
config_of env workers alerts = record {
  database_url = env "DATABASE_URL";
  telegram_token = env "TELEGRAM_APITOKEN";
  webhook_secret = env "WEBHOOK_SECRET_TOKEN";
  cron_secret = env "CRON_SECRET";
  metrics_secret = env "METRICS_SECRET";
  port = port env;
  telegram_update_workers = workers;
  price_alerts_enabled = alerts;
}

abbrev pub required : Config → List (String × Bytes)
required cfg =
    ("DATABASE_URL", cfg.database_url)
    ∷ ("TELEGRAM_APITOKEN", cfg.telegram_token)
    ∷ ("WEBHOOK_SECRET_TOKEN", cfg.webhook_secret)
    ∷ ("CRON_SECRET", cfg.cron_secret)
    ∷ ("METRICS_SECRET", cfg.metrics_secret)
    ∷ []

-- The name of the first variable that is empty.
unfoldable pub first_missing : List (String × Bytes) → Option String
first_missing [] = none
first_missing ((name, value) ∷ variables) =
    let rest = first_missing variables in if is_empty value then some name else rest

unfoldable pub checked : Config → Option String → Result Config
checked cfg (some name) =
    err (plain (bytes "required environment variable " ++ bytes name ++ bytes " is missing"))
checked cfg none =
    if bytes_eq cfg.metrics_secret cfg.cron_secret
    then err (plain (bytes "METRICS_SECRET must differ from CRON_SECRET"))
    else ok cfg

unfoldable pub with_alerts : Environment → ℕ → Option Bool → Result Config
with_alerts env workers none = err (plain (bytes "PRICE_ALERTS_ENABLED must be a boolean"))
with_alerts env workers (some alerts) =
    checked (config_of env workers alerts) (first_missing (required (config_of env workers alerts)))

unfoldable pub with_workers : Environment → Result ℕ → Result Config
with_workers env (err e) = err e
with_workers env (ok workers) =
    if ltb max_telegram_update_worker_count workers
    then err (
        plain (
          bytes "TELEGRAM_UPDATE_WORKERS must not exceed "
          ++ format_int (pos max_telegram_update_worker_count)))
    else with_alerts env workers (alerts_enabled env)

-- Load
unfoldable pub load : Environment → Result Config
load env =
    with_workers env
      (optional_positive_int env "TELEGRAM_UPDATE_WORKERS" max_telegram_update_worker_count)
