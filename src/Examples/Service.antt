-- ===== src/Examples/Service.antt =====
-- The configuration, the authorization and the shutdown at concrete inputs.
use cryptopulse_telegram_bot.Prelude.{◌≡◌, refl, ◌⊎◌, true, if◌then◌else◌}
use package.text.Mathlib.Text.{◌==◌ as str_eq}
use cryptopulse_telegram_bot.Bytes.{bytes}
use cryptopulse_telegram_bot.Strconv.{atoi}
use cryptopulse_telegram_bot.Session.{ok, inc, Counter, World}
use cryptopulse_telegram_bot.Config.{
  Config, Environment, parse_bool, load, optional_positive_int, alerts_enabled, port, first_missing,
  checked, with_alerts, with_workers, config_of,
}
use cryptopulse_telegram_bot.Config.Valid.{IsValid, Succeeds, load-IsValid}
use cryptopulse_telegram_bot.Http.{
  Request, safe_secret_compare, bearer_token, cron_auth_middleware, metrics_auth_middleware,
  unauthorized,
}
use cryptopulse_telegram_bot.Http.Secrets.{unauthorized_somewhere}
use cryptopulse_telegram_bot.Examples.{small_db, world_of}

-- Every variable but three has its own name as its value.
abbrev pub environment : Environment
environment name =
    if str_eq name "TELEGRAM_UPDATE_WORKERS"
    then bytes "2"
    else if str_eq name "PRICE_ALERTS_ENABLED"
    then bytes "true"
    else if str_eq name "PORT"
    then bytes ""
    else bytes name

abbrev pub loaded_config : Config
loaded_config = config_of environment 2 true

pub test_load : load environment ≡ ok loaded_config
unfolding load optional_positive_int alerts_enabled port first_missing checked with_alerts
    with_workers atoi parse_bool
test_load = refl

load_example : Succeeds IsValid (load environment)
load_example = load-IsValid environment

abbrev count_in_world : Counter → World → World
count_in_world c w = (inc c w).1

abbrev cron_request : Request
cron_request = record {
  method = bytes "POST";
  path = bytes "/cron";
  remote_addr = bytes "10.0.0.1:5000";
  authorization = bytes "Bearer CRON_SECRET";
  telegram_secret_token = bytes "";
  body = ok (bytes "");
}

unauthorized_example :
    ((cron_auth_middleware count_in_world loaded_config cron_request
        (λ w. (200, w))
        (world_of small_db)).0
      ≡ unauthorized)
    ⊎ ((metrics_auth_middleware loaded_config cron_request (λ w. (200, w)) (world_of small_db)).0
        ≡ unauthorized)
unauthorized_example =
    unauthorized_somewhere environment loaded_config test_load count_in_world cron_request
      (λ w. (200, w)) (λ w. (200, w)) (world_of small_db)

test_cron :
    (cron_auth_middleware count_in_world loaded_config cron_request
      (λ w. (200, w))
      (world_of small_db)).0
    ≡ 200
unfolding cron_auth_middleware safe_secret_compare bearer_token
test_cron = refl
