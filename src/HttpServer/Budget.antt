-- ===== src/HttpServer/Budget.antt =====
-- The budgets of clients: none is touched by the requests of others, and none is kept for long.
use cryptopulse_telegram_bot.Prelude.{
  ℕ, ◌+◌, ◌*◌, ◌^◌, ◌≤◌, ◌<◌, ◌≡◌, refl, sym, subst, ◌∙◌, inl, inr, arith, Bool, true, false, not,
  some, List, [], ◌∷◌, leb, select, All, All-map, Bool-cases, if_both, if◌then◌else◌,
}
use cryptopulse_telegram_bot.Bytes.{Bytes, bytes_eq}
use cryptopulse_telegram_bot.Bytes.Equality.{get, put, get-put, bytes_eq_sound}
use cryptopulse_telegram_bot.HttpServer.{
  ClientRateLimitEntry, ClientRateLimiter, since, known_key, is_idle, cleaned, allow_from,
  allow_client, bucket_of,
}

get-select :
    {V : Type 0} (p : Bytes × V → Bool) (key : Bytes) (m : List (Bytes × V)) (v : V)
    → get key m ≡ some v
    → p (key, v) ≡ true
    → get key (select p m) ≡ some v
unfolding get
get-select p key [] v h k = absurd (ground (arith, h))
get-select {V} p key ((j, u) ∷ m) v h k =
    step (bytes_eq j key) refl h (λ rest. get-select p key m v rest k)
  where
    same : some u ≡ some v → u ≡ v
    same e = cc

    step :
        (b : Bool)
        → bytes_eq j key ≡ b
        → (if b then some u else get key m) ≡ some v
        → (get key m ≡ some v → get key (select p m) ≡ some v)
        → get key (select p ((j, u) ∷ m)) ≡ some v
    step true e h ih =
        let kept : p (j, u) ≡ true =
          subst (λ i. p (i, u) ≡ true) (sym (bytes_eq_sound j key e))
            (subst (λ x. p (key, x) ≡ true) (sym (same h)) k) in
        rw kept (rw e h)
    step false e h ih = if_both (λ l. get key l ≡ some v) (p (j, u)) _ _ (rw e (ih h)) (ih h)

module _ {L : Type 0} (new_limiter : ℕ → ℕ → L) (allow : ℕ → L → Bool × L) where
  -- A client that was seen within the time to live keeps its bucket.
  cleaned_keeps :
      (l : ClientRateLimiter L) (now : ℕ) (key : Bytes) (e : ClientRateLimitEntry L)
      → 0 < l.ttl
      → get key l.clients ≡ some e
      → now < e.last_seen + l.ttl
      → get key (cleaned l now).clients ≡ some e
  unfolding cleaned
  cleaned_keeps l now key e positive h fresh =
      if_both (λ (m : ClientRateLimiter L). get key m.clients ≡ some e)
        (leb l.ttl (since now l.last_cleanup)) _ _
        (get-select _ key l.clients e h (ground (arith, fresh, positive))) h

  cleaned_ttl : (l : ClientRateLimiter L) (now : ℕ) → (cleaned l now).ttl ≡ l.ttl
  unfolding cleaned
  cleaned_ttl l now =
      if_both (λ (m : ClientRateLimiter L). m.ttl ≡ l.ttl) (leb l.ttl (since now l.last_cleanup)) _
        _ refl refl

  abbrev pub Request : Type 0
  Request = Bytes × ℕ

  -- Requests of clients, one after the other.
  unfoldable pub serve : ClientRateLimiter L → List Request → ClientRateLimiter L
  serve l [] = l
  serve l ((key, now) ∷ requests) = serve (allow_client new_limiter allow l key now).1 requests

  allow_client_keeps :
      (l : ClientRateLimiter L) (other key : Bytes) (now : ℕ) (e : ClientRateLimitEntry L)
      → bytes_eq (known_key other) key ≡ false
      → 0 < l.ttl
      → get key l.clients ≡ some e
      → now < e.last_seen + l.ttl
      → (get key (allow_client new_limiter allow l other now).1.clients ≡ some e)
        × ((allow_client new_limiter allow l other now).1.ttl ≡ l.ttl)
  unfolding allow_client allow_from cleaned
  allow_client_keeps l other key now e differ positive h fresh = (
    get-put (known_key other) key _ _ ∙ rw differ (cleaned_keeps l now key e positive h fresh),
    cleaned_ttl l now,
  )

  -- The requests of other clients take nothing from the budget of a client: as long as no more than the
  -- time to live has passed since it was seen, its bucket is the same after any number of requests
  -- under other keys.
  pub get-serve :
      (key : Bytes) (e : ClientRateLimitEntry L) (requests : List Request) (l : ClientRateLimiter L)
      → All (λ r. (bytes_eq (known_key r.0) key ≡ false) × (r.1 < e.last_seen + l.ttl)) requests
      → 0 < l.ttl
      → get key l.clients ≡ some e
      → get key (serve l requests).clients ≡ some e
  unfolding serve
  get-serve key e [] l others positive h = h
  get-serve key e ((other, now) ∷ requests) l others positive h =
      let next = (allow_client new_limiter allow l other now).1 in
      let kept = allow_client_keeps l other key now e others.0.0 positive h others.0.1 in
      get-serve key e requests next
        (subst
          (λ t.
            All (λ r. (bytes_eq (known_key r.0) key ≡ false) × (r.1 < e.last_seen + t)) requests)
          (sym kept.1) others.1)
        (subst (λ t. 0 < t) (sym kept.1) positive) kept.0

  -- Every entry was used after the last cleanup or less than the time to live before it.
  pub record IsRecent (l : ClientRateLimiter L) : Type 0 where
    pub positive : 0 < l.ttl
    pub bounded : l.ttl < 2 ^ 63
    pub recent : All (λ c. l.last_cleanup < c.1.last_seen + l.ttl) l.clients

  select_recent :
      (l : ClientRateLimiter L) (now : ℕ) (m : List (Bytes × ClientRateLimitEntry L))
      → l.ttl < 2 ^ 63
      → All (λ c. now < c.1.last_seen + l.ttl) (select (λ c. not (is_idle l now c)) m)
  select_recent l now [] b = tt
  select_recent l now ((k, e) ∷ m) b =
      step (leb l.ttl (since now e.last_seen)) refl (select_recent l now m b)
    where
      step :
          (b : Bool)
          → leb l.ttl (since now e.last_seen) ≡ b
          → All (λ c. now < c.1.last_seen + l.ttl) (select (λ c. not (is_idle l now c)) m)
          → All
              (λ c. now < c.1.last_seen + l.ttl)
              (if not b
                then (k, e) ∷ select (λ c. not (is_idle l now c)) m
                else select (λ c. not (is_idle l now c)) m)
      step true idle rest = rest
      step false idle rest = (ground (arith, idle, b), rest)

  put_recent :
      (P : Bytes × ClientRateLimitEntry L → Type 0) (key : Bytes) (e : ClientRateLimitEntry L)
      (m : List (Bytes × ClientRateLimitEntry L))
      → ((k : Bytes) → P (k, e))
      → All P m
      → All P (put key e m)
  unfolding put
  put_recent P key e [] he h = (he key, tt)
  put_recent P key e ((j, u) ∷ m) he h =
      if_both (All P) (bytes_eq j key) _ _ (he j, h.1) (h.0, put_recent P key e m he h.1)

  cleaned-IsRecent : (l : ClientRateLimiter L) (now : ℕ) → IsRecent l → IsRecent (cleaned l now)
  unfolding cleaned
  cleaned-IsRecent l now r =
      if_both IsRecent (leb l.ttl (since now l.last_cleanup)) _ _
        (record {
          positive = r.positive;
          bounded = r.bounded;
          recent = select_recent l now l.clients r.bounded;
        })
        r

  cleaned_ordered :
      (l : ClientRateLimiter L) (now : ℕ)
      → l.last_cleanup ≤ now
      → (cleaned l now).last_cleanup ≤ now
  unfolding cleaned
  cleaned_ordered l now h =
      if_both (λ (m : ClientRateLimiter L). m.last_cleanup ≤ now)
        (leb l.ttl (since now l.last_cleanup)) _ _ (omega arith) h

  fresh_cleanup :
      (l : ClientRateLimiter L) (now : ℕ) → IsRecent l → now < (cleaned l now).last_cleanup + l.ttl
  unfolding cleaned
  fresh_cleanup l now r = elim (Bool-cases (leb l.ttl (since now l.last_cleanup))) [
    | inl e ↦ rw e (omega (arith, r.positive))
    | inr e ↦ rw e (ground (arith, e, r.bounded))
  ]

  -- No entry is kept for long. If every entry was used after the last cleanup or less than the time to
  -- live before it, and the clock does not go back, then this holds after a request too; and then every
  -- entry that is kept was used less than twice the time to live ago.
  pub allow_client-IsRecent :
      (l : ClientRateLimiter L) (key : Bytes) (now : ℕ)
      → IsRecent l
      → l.last_cleanup ≤ now
      → IsRecent (allow_client new_limiter allow l key now).1
        × All
            (λ c. now < c.1.last_seen + 2 * l.ttl)
            (allow_client new_limiter allow l key now).1.clients
  unfolding allow_client allow_from
  allow_client-IsRecent l key now r ordered =
      (after, All-map _ _ _ (λ c h. omega (arith, h, fresh_cleanup l now r, same_ttl)) after.recent)
    where
      l' : ClientRateLimiter L
      l' = cleaned l now

      c : IsRecent l'
      c = cleaned-IsRecent l now r

      same_ttl : l'.ttl ≡ l.ttl
      same_ttl = cleaned_ttl l now

      after :
          IsRecent
            (allow_from new_limiter allow l'
              (known_key key)
              now
              (bucket_of new_limiter allow l' (get (known_key key) l'.clients))).1
      after = record {
        positive = c.positive;
        bounded = c.bounded;
        recent =
            put_recent (λ c. l'.last_cleanup < c.1.last_seen + l'.ttl) (known_key key) _ l'.clients
              (λ k. omega (arith, c.positive, cleaned_ordered l now ordered)) c.recent;
      }
