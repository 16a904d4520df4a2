-- ===== src/Http/Shutdown.antt =====
-- The producers and the shutdown, as the steps of any number of requests.
use cryptopulse_telegram_bot.Prelude.{◌≤◌, ◌<◌, ◌≡◌, refl, arith, true, some}
use cryptopulse_telegram_bot.Http.{
  Producers, enter, leave, stop_accepting_producers, is_shutting_down,
}

-- Requests in their handlers: a request enters, one that has entered leaves, the shutdown begins.
pub data Step (p : Producers) : Producers → Type 0 where
  entered : {q : Producers} → enter p ≡ some q → Step p q
  left : 0 < p.active → Step p (leave p)
  stopped : Step p (stop_accepting_producers p)

pub data Run (p : Producers) : Producers → Type 0 where
  here : Run p p
  next : {q r : Producers} → Run p q → Step q r → Run p r

-- A request does not enter once the shutdown has begun.
closed : (p q : Producers) → is_shutting_down p ≡ true → enter p ≡ some q → ⊥
unfolding enter is_shutting_down
closed p q h e = ground (arith, h, e)

Step-active :
    (p q : Producers)
    → is_shutting_down p ≡ true
    → Step p q
    → (is_shutting_down q ≡ true) × (q.active ≤ p.active)
unfolding leave stop_accepting_producers is_shutting_down
Step-active p q h (entered e) = absurd (closed p q h e)
Step-active p q h (left some_active) = (h, omega arith)
Step-active p q h stopped = (refl, omega arith)

-- After stopAcceptingProducers, whatever requests do: the program keeps shutting down, and no more
-- handlers are running than at that moment. So none is running from the time on at which producerWG has
-- been waited for.
pub Run-active :
    (p : Producers) {q : Producers}
    → Run (stop_accepting_producers p) q
    → (is_shutting_down q ≡ true) × (q.active ≤ p.active)
unfolding stop_accepting_producers is_shutting_down
Run-active p here = (refl, omega arith)
Run-active p (next {q = q} {r = r} run step) =
    let before = Run-active p run in
    let after = Step-active q r before.0 step in (after.0, omega (arith, before.1, after.1))
