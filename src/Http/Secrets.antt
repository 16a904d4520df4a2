-- ===== src/Http/Secrets.antt =====
-- Which requests pass the authorization of the endpoints.
use cryptopulse_telegram_bot.Prelude.{
  ◌≡◌, refl, ◌⊎◌, sym, subst, ◌∙◌, inl, inr, arith, true, false, [], Bool-cases, drop,
  if◌then◌else◌,
}
use cryptopulse_telegram_bot.Bytes.{Bytes, bytes, bytes_eq, has_prefix}
use cryptopulse_telegram_bot.Bytes.Equality.{bytes_eq_sound, bytes_eq_refl}
use cryptopulse_telegram_bot.Session.{Counter, ok}
use cryptopulse_telegram_bot.HttpServer.{Handler}
use cryptopulse_telegram_bot.Config.{Config, Environment, load, is_empty}
use cryptopulse_telegram_bot.Config.Valid.{IsValid, Succeeds, load-IsValid}
use cryptopulse_telegram_bot.Http.{
  Request, safe_secret_compare, bearer_token, cron_auth_middleware, metrics_auth_middleware,
  unauthorized,
}

compare_sound : (a b : Bytes) → safe_secret_compare a b ≡ true → a ≡ b
unfolding safe_secret_compare
compare_sound a b h = elim (Bool-cases (is_empty b)) [
  | inl e ↦ absurd (ground (arith, e, h))
  | inr e ↦ bytes_eq_sound a b (ground (arith, e, h))
]

metrics_token :
    (r : Request)
    → (if has_prefix r.authorization (bytes "Bearer ") then drop 7 r.authorization else [])
      ≡ bearer_token r
unfolding bearer_token
metrics_token r = elim (Bool-cases (has_prefix r.authorization (bytes "Bearer "))) [
  | inl e ↦ rw e refl
  | inr e ↦ rw e refl
]

shared :
    (cfg : Config) (token : Bytes)
    → bytes_eq cfg.metrics_secret cfg.cron_secret ≡ false
    → safe_secret_compare token cfg.cron_secret ≡ true
    → safe_secret_compare token cfg.metrics_secret ≡ true
    → ⊥
shared cfg token differ c m = ground (
  arith,
  differ,
  subst (λ s. bytes_eq cfg.metrics_secret s ≡ true)
      (sym (compare_sound token cfg.metrics_secret m) ∙ compare_sound token cfg.cron_secret c)
      (bytes_eq_refl cfg.metrics_secret),
)

-- With a configuration that Load returns, no request opens both endpoints: whatever its headers and
-- whatever the handlers behind the middlewares do, it is answered with 401 at /cron or at /metrics.
pub unauthorized_somewhere :
    (env : Environment) (cfg : Config)
    → load env ≡ ok cfg
    → {S : Type 0} (count : Counter → S → S) (r : Request) (cron metrics : Handler S) (w : S)
    → ((cron_auth_middleware count cfg r cron w).0 ≡ unauthorized)
      ⊎ ((metrics_auth_middleware cfg r metrics w).0 ≡ unauthorized)
unfolding cron_auth_middleware metrics_auth_middleware
unauthorized_somewhere env cfg loaded count r cron metrics w =
    elim (Bool-cases (safe_secret_compare (bearer_token r) cfg.cron_secret)) [
      | inr c ↦ inl (rw c refl)
      | inl c ↦ elim (Bool-cases (safe_secret_compare (bearer_token r) cfg.metrics_secret)) [
        | inr m ↦ inr (rw (metrics_token r) (rw m refl))
        | inl m ↦ absurd (shared cfg (bearer_token r) valid.secrets_differ c m)
      ]
    ]
  where
    valid : IsValid cfg
    valid = subst (Succeeds IsValid) loaded (load-IsValid env)
