-- ===== src/HttpServer.antt =====
-- internal/httpserver: the limits of requests, the address of a client and the check of liveness. The
-- token bucket of golang.org/x/time/rate is an argument: its state, a new one, and a request of a token.
pub mod Address
pub mod Budget
pub mod Clients
use cryptopulse_telegram_bot.Prelude.{
  ℕ, ◌-◌, ◌*◌, ◌^◌, min, Bool, true, false, not, Option, none, some, List, [], ◌∷◌, ◌++◌, select,
  leb, ◌==◌, ℤ, pos, negsuc, if◌then◌else◌,
}
use cryptopulse_telegram_bot.Bytes.{Bytes, bytes, bytes_eq}
use cryptopulse_telegram_bot.Bytes.Equality.{get, put}
use cryptopulse_telegram_bot.GoError.{Error}
use cryptopulse_telegram_bot.Session.{Result, ok, err}
use cryptopulse_telegram_bot.Workers.{minute}

-- A bucket and when its client was seen last.
pub record ClientRateLimitEntry (L : Type 0) : Type 0 where
  pub limiter : L
  pub last_seen : ℕ

pub record ClientRateLimiter (L : Type 0) : Type 0 where
  pub limit : ℕ
  pub burst : ℕ
  pub ttl : ℕ
  pub last_cleanup : ℕ
  pub clients : List (Bytes × ClientRateLimitEntry L)

-- A time to live that is not positive is replaced.
abbrev pub usable_ttl : ℤ → ℕ
usable_ttl (pos n) = if n == 0 then 10 * minute else n
usable_ttl (negsuc n) = 10 * minute

-- NewClientRateLimiter
unfoldable pub new_client_rate_limiter : {L : Type 0} → ℕ → ℕ → ℤ → ClientRateLimiter L
new_client_rate_limiter limit burst ttl = record {
  limit = limit;
  burst = burst;
  ttl = usable_ttl ttl;
  last_cleanup = 0;
  clients = [];
}

-- now.Sub(t), which saturates at the largest Duration; a negative one is below every time to live.
abbrev pub since : ℕ → ℕ → ℕ
since now t = min (now - t) (2 ^ 63 - 1)

-- A missing key counts as "unknown".
abbrev pub known_key : Bytes → Bytes
known_key [] = bytes "unknown"
known_key (c ∷ key) = c ∷ key

abbrev pub is_idle : {L : Type 0} → ClientRateLimiter L → ℕ → Bytes × ClientRateLimitEntry L → Bool
is_idle l now (key, e) = leb l.ttl (since now e.last_seen)

unfoldable pub cleaned : {L : Type 0} → ClientRateLimiter L → ℕ → ClientRateLimiter L
cleaned l now =
    if leb l.ttl (since now l.last_cleanup)
    then record l { clients = select (λ c. not (is_idle l now c)) l.clients; last_cleanup = now }
    else l

module _ {L : Type 0} (new_limiter : ℕ → ℕ → L) (allow : ℕ → L → Bool × L) where
  unfoldable pub bucket_of : ClientRateLimiter L → Option (ClientRateLimitEntry L) → L
  bucket_of l none = new_limiter l.limit l.burst
  bucket_of l (some e) = e.limiter

  unfoldable pub allow_from : ClientRateLimiter L → Bytes → ℕ → L → Bool × ClientRateLimiter L
  allow_from l key now bucket =
      let (allowed, bucket') = allow now bucket in
      (
        allowed,
        record l { clients = put key (record { limiter = bucket'; last_seen = now }) l.clients },
      )

  -- Allow, at a time of time.Now(). The token is requested after the mutex is released, from a bucket
  -- that has a lock of its own.
  unfoldable pub allow_client : ClientRateLimiter L → Bytes → ℕ → Bool × ClientRateLimiter L
  allow_client l client_key now =
      let key = known_key client_key in
      let l' = cleaned l now in allow_from l' key now (bucket_of l' (get key l'.clients))

-- A handler answers with a status and leaves a state.
abbrev pub Handler : Type 0 → Type 0
Handler S = S → ℕ × S

abbrev pub method_not_allowed : ℕ
method_not_allowed = 405

abbrev pub too_many_requests : ℕ
too_many_requests = 429

-- Method
unfoldable pub method_only : {S : Type 0} → Bytes → Bytes → Handler S → Handler S
method_only method requested next =
    if not (bytes_eq requested method) then (λ s. (method_not_allowed, s)) else next

-- GlobalRateLimit and ClientRateLimit, on the state after the bucket was asked for a token.
unfoldable pub rate_limited : {S : Type 0} → (S → Bool × S) → Handler S → Handler S
rate_limited ask next s =
    let (allowed, s') = ask s in if allowed then next s' else (too_many_requests, s')

-- What the request of a health check came to: it could not be created or has no answer, or a status.
pub data Probe : Type 0 where
  not_answered : Error → Probe
  status : ℕ → Probe

-- An error of Healthcheck: that of the request, or a StatusError with the code.
pub data Unhealthy : Type 0 where
  request_error : Error → Unhealthy
  status_error : ℕ → Unhealthy

-- Healthcheck
unfoldable pub healthcheck : Probe → Option Unhealthy
healthcheck (not_answered e) = some (request_error e)
healthcheck (status code) = if not (code == 200) then some (status_error code) else none
