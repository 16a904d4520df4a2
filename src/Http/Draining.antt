-- ===== src/Http/Draining.antt =====
-- What the routes do once the shutdown has begun.
use cryptopulse_telegram_bot.Prelude.{
  ℕ, ◌≡◌, ◌≢◌, refl, inl, inr, arith, Bool, true, not, [], if_both, if_first, if_split, drop, ◌⊎◌,
  if◌then◌else◌,
}
use cryptopulse_telegram_bot.Bytes.{bytes, bytes_eq, has_prefix}
use cryptopulse_telegram_bot.App.{App}
use cryptopulse_telegram_bot.Config.{Config}
use cryptopulse_telegram_bot.Session.{Env, World}
use cryptopulse_telegram_bot.HttpServer.{Handler, method_only, rate_limited}
use cryptopulse_telegram_bot.Http.{
  Request, Producers, enter, is_shutting_down, safe_secret_compare, bearer_token,
  cron_auth_middleware, webhook_auth_middleware, metrics_auth_middleware,
}
use cryptopulse_telegram_bot.Http.Endpoints.{status_ok, accepted, handle_ready}
use cryptopulse_telegram_bot.Http.Routes.{
  entered_as, Service, producer_middleware, ask_cron, ask_client, cron_route, webhook_route,
  ready_route, metrics_route, live_route, route,
}

module _ {L : Type 0} (new_limiter : ℕ → ℕ → L) (allow : ℕ → L → Bool × L) (time_now : ℕ → ℕ)
    (meanwhile : Producers → Producers) (env : Env) (app : App) (cfg : Config) (r : Request)
    (s : Service L) where
  -- The database is as it was, and the program still shuts down.
  abbrev pub Untouched : ℕ × Service L → Type 0
  Untouched a = (a.1.world.db ≡ s.world.db) × (a.1.producers.shutting_down ≡ true)

  abbrev pub IsRefused : ℕ × Service L → Type 0
  IsRefused a = Untouched a × (a.0 ≢ status_ok) × (a.0 ≢ accepted)

  closed :
      (next : Handler (Service L)) (t : Service L)
      → t.world.db ≡ s.world.db
      → t.producers.shutting_down ≡ true
      → IsRefused (producer_middleware next t)
  unfolding producer_middleware enter
  closed next t same down =
      if_first (λ o. IsRefused (entered_as next t o)) t.producers.shutting_down _ _ down
        ((same, down), (λ e. omega (arith, e)), (λ e. omega (arith, e)))

  module _ (down : s.producers.shutting_down ≡ true) where
    cron_closed : IsRefused (cron_route new_limiter allow time_now meanwhile env app cfg r s)
    unfolding cron_route method_only cron_auth_middleware rate_limited
    cron_closed =
        if_both (λ (h : Handler (Service L)). IsRefused (h s))
          (not (bytes_eq r.method (bytes "POST"))) _ _
          ((refl, down), (λ e. omega (arith, e)), (λ e. omega (arith, e)))
          (if_both IsRefused (not (safe_secret_compare (bearer_token r) cfg.cron_secret)) _ _
            ((refl, down), (λ e. omega (arith, e)), (λ e. omega (arith, e)))
            (if_both IsRefused (ask_cron new_limiter allow time_now meanwhile env app cfg r s).0 _ _
              (closed _ (ask_cron new_limiter allow time_now meanwhile env app cfg r s).1 refl down)
              ((refl, down), (λ e. omega (arith, e)), (λ e. omega (arith, e)))))

    webhook_closed : IsRefused (webhook_route new_limiter allow time_now meanwhile env app cfg r s)
    unfolding webhook_route method_only webhook_auth_middleware rate_limited
    webhook_closed =
        if_both (λ (h : Handler (Service L)). IsRefused (h s))
          (not (bytes_eq r.method (bytes "POST"))) _ _
          ((refl, down), (λ e. omega (arith, e)), (λ e. omega (arith, e)))
          (if_both IsRefused (not (safe_secret_compare r.telegram_secret_token cfg.webhook_secret))
            _ _ ((refl, down), (λ e. omega (arith, e)), (λ e. omega (arith, e)))
            (if_both IsRefused (ask_client new_limiter allow time_now meanwhile env app cfg r s).0 _
              _
              (closed _ (ask_client new_limiter allow time_now meanwhile env app cfg r s).1 refl
                down)
              ((refl, down), (λ e. omega (arith, e)), (λ e. omega (arith, e)))))

    ready_closed :
        (meanwhile s.producers).shutting_down ≡ true
        → IsRefused (ready_route new_limiter allow time_now meanwhile env app cfg r s)
    unfolding ready_route method_only handle_ready is_shutting_down
    ready_closed still =
        if_both (λ (h : Handler (Service L)). IsRefused (h s))
          (not (bytes_eq r.method (bytes "GET"))) _ _
          ((refl, down), (λ e. omega (arith, e)), (λ e. omega (arith, e)))
          (if_first
            (λ (a : ℕ × World).
              IsRefused (a.0, record s { producers = meanwhile s.producers; world = a.1 }))
            s.producers.shutting_down _ _ down
            ((refl, still), (λ e. omega (arith, e)), (λ e. omega (arith, e))))

    abbrev Served : ℕ × Service L → Type 0
    Served a = Untouched a × (a.0 ≢ accepted)

    metrics-Served : Served (metrics_route new_limiter allow time_now meanwhile env app cfg r s)
    unfolding metrics_route method_only metrics_auth_middleware
    metrics-Served =
        if_both (λ (h : Handler (Service L)). Served (h s)) (not (bytes_eq r.method (bytes "GET")))
          _ _ ((refl, down), (λ e. omega (arith, e)))
          (if_both Served
            (not (
              safe_secret_compare
                (if has_prefix r.authorization (bytes "Bearer ")
                  then drop 7 r.authorization
                  else [])
                cfg.metrics_secret))
            _ _ ((refl, down), (λ e. omega (arith, e))) ((refl, down), (λ e. omega (arith, e))))

    live-Served : Served (live_route new_limiter allow time_now meanwhile env app cfg r s)
    unfolding live_route method_only
    live-Served =
        if_both (λ (h : Handler (Service L)). Served (h s)) (not (bytes_eq r.method (bytes "GET")))
          _ _ ((refl, down), (λ e. omega (arith, e))) ((refl, down), (λ e. omega (arith, e)))

    abbrev Drained : ℕ × Service L → Type 0
    Drained a =
        Untouched a
        × (a.0 ≢ accepted)
        × (a.0 ≡ status_ok
            → (bytes_eq r.path (bytes "/live") ≡ true)
              ⊎ (bytes_eq r.path (bytes "/metrics") ≡ true))

    -- Once the shutdown has begun, no request changes the database, whatever its path, its method, its
    -- headers and its body, and the program goes on shutting down, if no other goroutine ends that
    -- meanwhile. No request is answered with 202, and with 200 only one of /live or /metrics: no work
    -- is accepted any more, and /ready does not say that the program is ready.
    pub route-Drained :
        (meanwhile s.producers).shutting_down ≡ true
        → Untouched (route new_limiter allow time_now meanwhile env app cfg r s)
          × ((route new_limiter allow time_now meanwhile env app cfg r s).0 ≢ accepted)
          × ((route new_limiter allow time_now meanwhile env app cfg r s).0 ≡ status_ok
              → (bytes_eq r.path (bytes "/live") ≡ true)
                ⊎ (bytes_eq r.path (bytes "/metrics") ≡ true))
    unfolding route
    route-Drained still =
        if_split (λ (h : Handler (Service L)). Drained (h s)) (bytes_eq r.path (bytes "/live")) _ _
          (λ e. (live-Served.0, live-Served.1, λ h. inl e))
          (λ l.
            if_split (λ (h : Handler (Service L)). Drained (h s)) (bytes_eq r.path (bytes "/ready"))
              _ _ (λ e. let i = (ready_closed still) in (i.0, i.2, λ h. absurd (i.1 h)))
              (λ y.
                if_split (λ (h : Handler (Service L)). Drained (h s))
                  (bytes_eq r.path (bytes "/metrics")) _ _
                  (λ e. (metrics-Served.0, metrics-Served.1, λ h. inr e))
                  (λ m.
                    if_split (λ (h : Handler (Service L)). Drained (h s))
                      (bytes_eq r.path (bytes "/cron")) _ _
                      (λ e. let i = cron_closed in (i.0, i.2, λ h. absurd (i.1 h)))
                      (λ c.
                        if_split (λ (h : Handler (Service L)). Drained (h s))
                          (bytes_eq r.path (bytes "/webhook")) _ _
                          (λ e. let i = webhook_closed in (i.0, i.2, λ h. absurd (i.1 h)))
                          (λ n. (
                            (refl, down),
                            (λ e. omega (arith, e)),
                            (λ e. absurd (omega (arith, e))),
                          ))))))
