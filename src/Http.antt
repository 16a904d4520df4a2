-- ===== src/Http.antt =====
-- internal/app/http_handlers.go: the secrets that open an endpoint, and the producers that a shutdown
-- waits for.
pub mod Endpoints
pub mod Routes
pub mod Exclusive
pub mod Draining
pub mod Acknowledged
pub mod Secrets
pub mod Shutdown
use cryptopulse_telegram_bot.Prelude.{
  ℕ, suc, ◌-◌, Bool, true, false, not, Option, none, some, List, [], ◌∷◌, String, drop,
  if◌then◌else◌,
}
use cryptopulse_telegram_bot.Bytes.{Bytes, bytes, bytes_eq, has_prefix}
use cryptopulse_telegram_bot.Config.{Config, is_empty}
use cryptopulse_telegram_bot.Session.{Counter, Result, cron_runs_total, webhook_updates_total}
use cryptopulse_telegram_bot.HttpServer.{Handler}

-- What the code reads of a request: a header that is missing is empty, and the body is what reading all
-- of it gives, or the error, also that of a body of more than a megabyte.
pub record Request : Type 0 where
  pub method : Bytes
  pub path : Bytes
  pub remote_addr : Bytes
  pub authorization : Bytes
  pub telegram_secret_token : Bytes
  pub body : Result Bytes

-- safeSecretCompare: subtle.ConstantTimeCompare is 1 on equal texts.
unfoldable pub safe_secret_compare : Bytes → Bytes → Bool
safe_secret_compare input_token expected_secret =
    if is_empty expected_secret then false else bytes_eq input_token expected_secret

-- bearerToken
unfoldable pub bearer_token : Request → Bytes
bearer_token r =
    if not (has_prefix r.authorization (bytes "Bearer ")) then [] else drop 7 r.authorization

abbrev pub unauthorized : ℕ
unauthorized = 401

-- A middleware answers with a status, or leaves the answer to the handler behind it.
module _ {S : Type 0} (count : Counter → S → S) (cfg : Config) (r : Request)
    (next : Handler S) where
  unfoldable pub cron_auth_middleware : Handler S
  cron_auth_middleware s =
      if not (safe_secret_compare (bearer_token r) cfg.cron_secret)
      then (unauthorized, count (cron_runs_total "unauthorized") s)
      else next s

  unfoldable pub webhook_auth_middleware : Handler S
  webhook_auth_middleware s =
      if not (safe_secret_compare r.telegram_secret_token cfg.webhook_secret)
      then (unauthorized, count (webhook_updates_total "unauthorized") s)
      else next s

unfoldable pub metrics_auth_middleware : {S : Type 0} → Config → Request → Handler S → Handler S
metrics_auth_middleware cfg r next s =
    let token =
      if has_prefix r.authorization (bytes "Bearer ") then drop 7 r.authorization else [] in
    if not (safe_secret_compare token cfg.metrics_secret) then (unauthorized, s) else next s

-- The fields of App that producerMu guards: the flag, and the count of producerWG.
pub record Producers : Type 0 where
  pub shutting_down : Bool
  pub active : ℕ

-- The part of producerMiddleware in front of the handler: none stands for the answer 503.
unfoldable pub enter : Producers → Option Producers
enter p = if p.shutting_down then none else some (record p { active = suc p.active })

-- producerWG.Done(), after the handler
unfoldable pub leave : Producers → Producers
leave p = record p { active = p.active - 1 }

-- stopAcceptingProducers
unfoldable pub stop_accepting_producers : Producers → Producers
stop_accepting_producers p = record p { shutting_down = true }

-- isShuttingDown
unfoldable pub is_shutting_down : Producers → Bool
is_shutting_down p = p.shutting_down
