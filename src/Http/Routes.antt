-- ===== src/Http/Routes.antt =====
-- Handler of internal/app/http_handlers.go: the routes, each with its middlewares from the outside in.
use cryptopulse_telegram_bot.Prelude.{ℕ, ◌*◌, Bool, false, Option, none, some, if◌then◌else◌, pos}
use cryptopulse_telegram_bot.Bytes.{bytes, bytes_eq}
use cryptopulse_telegram_bot.App.{App}
use cryptopulse_telegram_bot.Config.{Config}
use cryptopulse_telegram_bot.Workers.{minute}
use cryptopulse_telegram_bot.Session.{Env, World, Act, Counter, inc}
use cryptopulse_telegram_bot.HttpServer.{
  Handler, ClientRateLimiter, new_client_rate_limiter, allow_client, method_only, rate_limited,
}
use cryptopulse_telegram_bot.HttpServer.Address.{client_key}
use cryptopulse_telegram_bot.Http.{
  Request, Producers, enter, leave, cron_auth_middleware, webhook_auth_middleware,
  metrics_auth_middleware,
}
use cryptopulse_telegram_bot.Http.Endpoints.{
  status_ok, service_unavailable, handle_cron, handle_webhook, handle_ready,
}

abbrev pub not_found : ℕ
not_found = 404

-- The state behind the routes: the world, the producers and the buckets of the limits.
pub record Service (L : Type 0) : Type 0 where
  pub world : World
  pub producers : Producers
  pub cron_limiter : L
  pub webhook_limiter : ClientRateLimiter L

module _ {L : Type 0} where
  -- rate.NewLimiter(rate.Every(30*time.Second), 5) and the limit of clients, with their rates as bit
  -- patterns of float64 (1/30 and 50 a second).
  unfoldable pub new_service : (ℕ → ℕ → L) → World → Service L
  new_service new_limiter w = record {
    world = w;
    producers = record { shutting_down = false; active = 0 };
    cron_limiter = new_limiter 0x3FA1111111111111 5;
    webhook_limiter = new_client_rate_limiter 0x4049000000000000 100 (pos (10 * minute));
  }

  abbrev pub count_in : Counter → Service L → Service L
  count_in c s = record s { world = (inc c s.world).1 }

  abbrev pub on_world : Act ℕ → Handler (Service L)
  on_world act s = let (code, w) = act s.world in (code, record s { world = w })

  abbrev pub left_with : ℕ × Service L → ℕ × Service L
  left_with (code, s) = (code, record s { producers = leave s.producers })

  abbrev pub entered_as : Handler (Service L) → Service L → Option Producers → ℕ × Service L
  entered_as next s none = (service_unavailable, s)
  entered_as next s (some p) = left_with (next (record s { producers = p }))

  -- producerMiddleware
  unfoldable pub producer_middleware : Handler (Service L) → Handler (Service L)
  producer_middleware next s = entered_as next s (enter s.producers)

-- time_now is the clock of the process, asked at the number of the call; `meanwhile` is what other
-- goroutines do to the producers while the database is pinged.
module _ {L : Type 0} (new_limiter : ℕ → ℕ → L) (allow : ℕ → L → Bool × L) (time_now : ℕ → ℕ)
    (meanwhile : Producers → Producers) (env : Env) (app : App) (cfg : Config) (r : Request) where
  abbrev pub ask_cron : Service L → Bool × Service L
  ask_cron s =
      let (allowed, bucket) = allow (time_now s.world.calls) s.cron_limiter in
      (allowed, record s { cron_limiter = bucket })

  abbrev pub ask_client : Service L → Bool × Service L
  ask_client s =
      let (allowed, limiter) =
        allow_client new_limiter allow s.webhook_limiter (client_key r.remote_addr)
          (time_now s.world.calls) in
      (allowed, record s { webhook_limiter = limiter })

  unfoldable pub cron_route : Handler (Service L)
  cron_route = method_only (bytes "POST") r.method (
      cron_auth_middleware count_in cfg r
        (rate_limited ask_cron (producer_middleware (on_world (handle_cron env app)))))

  unfoldable pub webhook_route : Handler (Service L)
  webhook_route = method_only (bytes "POST") r.method (
      webhook_auth_middleware count_in cfg r
        (rate_limited ask_client (producer_middleware (on_world (handle_webhook env r)))))

  unfoldable pub ready_route : Handler (Service L)
  ready_route = method_only (bytes "GET") r.method (λ s.
      let p' = meanwhile s.producers in
      on_world (handle_ready env s.producers p') (record s { producers = p' }))

  unfoldable pub metrics_route : Handler (Service L)
  metrics_route =
      method_only (bytes "GET") r.method (metrics_auth_middleware cfg r (λ s. (status_ok, s)))

  unfoldable pub live_route : Handler (Service L)
  live_route = method_only (bytes "GET") r.method (λ s. (status_ok, s))

  -- The mux
  unfoldable pub route : Handler (Service L)
  route =
      if bytes_eq r.path (bytes "/live")
      then live_route
      else if bytes_eq r.path (bytes "/ready")
      then ready_route
      else if bytes_eq r.path (bytes "/metrics")
      then metrics_route
      else if bytes_eq r.path (bytes "/cron")
      then cron_route
      else if bytes_eq r.path (bytes "/webhook")
      then webhook_route
      else λ s. (not_found, s)
