-- ===== src/Runtime/Returns.antt =====
-- The main goroutine does not hang.
use cryptopulse_telegram_bot.Prelude.{
  ℕ, ◌≡◌, refl, arith, Bool, true, false, ◌||◌, Option, none, some, if◌then◌else◌,
}
use cryptopulse_telegram_bot.GoError.{Error}
use cryptopulse_telegram_bot.Http.{stop_accepting_producers}
use cryptopulse_telegram_bot.Runtime.Stopping.{
  Phase, serving, closing_server, awaiting_producers, awaiting_runtime, finishing_producers,
  finishing_runtime, returned, Runtime, started, is_run_done, producers_awaited, done,
  begin_shutdown, receive, run_ended, close_pools, runtime_awaited, main_at, main_step, Reach,
}
use cryptopulse_telegram_bot.Runtime.Stopped.{Sound, Reach-Sound}

-- The steps of the main goroutine, while nothing else happens.
pub data Alone : Runtime → Runtime → Type 0 where
  stays : {r : Runtime} → Alone r r
  goes : {r s t : Runtime} → main_step done r ≡ some s → Alone s t → Alone r t

-- From a state the main goroutine goes on to the end of Run.
pub record Returns (r : Runtime) : Type 0 where
  pub last : Runtime
  pub run : Alone r last
  pub back : last.phase ≡ returned

-- Nothing that the main goroutine waits for is running.
abbrev pub IsIdle : Runtime → Type 0
IsIdle r = (r.producers.active ≡ 0) × (r.running ≡ 0)

step_then : {r t : Runtime} → main_step done r ≡ some t → Returns t → Returns r
step_then e rest = record { last = rest.last; run = goes e rest.run; back = rest.back }

from_finishing_runtime : (r : Runtime) → r.phase ≡ finishing_runtime → IsIdle r → Returns r
unfolding main_step main_at close_pools
from_finishing_runtime r e idle =
    step_then {t = close_pools r} (rw e (ground (arith, idle)))
      (record { last = close_pools r; run = stays; back = refl })

from_finishing_producers : (r : Runtime) → r.phase ≡ finishing_producers → IsIdle r → Returns r
unfolding main_step main_at
from_finishing_producers r e idle =
    step_then {t = record r { phase = finishing_runtime }} (rw e (ground (arith, idle)))
      (from_finishing_runtime _ refl idle)

from_awaiting_runtime : (r : Runtime) → r.phase ≡ awaiting_runtime → IsIdle r → Returns r
unfolding main_step main_at runtime_awaited close_pools
from_awaiting_runtime r e idle =
    step_then {t = runtime_awaited false r} (rw e (ground (arith, idle)))
      (either (r.producers_late || false))
  where
    either :
        (b : Bool)
        → Returns (
            if b
            then record r { runtime_late = false; phase = finishing_producers }
            else close_pools (record r { runtime_late = false }))
    either true = from_finishing_producers _ refl idle
    either false = record { last = _; run = stays; back = refl }

from_awaiting_producers : (r : Runtime) → r.phase ≡ awaiting_producers → IsIdle r → Returns r
unfolding main_step main_at
from_awaiting_producers r e idle =
    step_then {t = producers_awaited false r} (rw e (ground (arith, idle)))
      (from_awaiting_runtime _ refl idle)

from_closing_server : (r : Runtime) → r.phase ≡ closing_server → IsIdle r → Returns r
unfolding main_step main_at
from_closing_server r e idle =
    step_then {t = record r { phase = awaiting_producers }} (rw e refl)
      (from_awaiting_producers _ refl idle)

from_serving :
    (r : Runtime) → Sound r → r.phase ≡ serving → is_run_done r ≡ true → IsIdle r → Returns r
unfolding main_step main_at run_ended receive begin_shutdown stop_accepting_producers
from_serving r h e over idle = by_error r.parent_done r.server_err refl refl
  where
    by_error : (b : Bool) (o : Option Error) → r.parent_done ≡ b → r.server_err ≡ o → Returns r
    by_error true o p q =
        step_then {t = begin_shutdown none r} (rw e (ground (arith, p)))
          (from_closing_server _ refl idle)
    by_error false (some x) p q =
        step_then {t = begin_shutdown (some x) (record r { server_err = none })}
          (rw e (ground (arith, p, q, over))) (from_closing_server _ refl idle)
    by_error false none p q = absurd (h.unread (rw e refl) (h.reported (ground (arith, over, p))) q)

-- Run returns: at every moment of every run after runCtx has ended, by a signal or by the failure of the
-- server, the main goroutine can go on to its return by itself, once no handler of a producer (/cron and
-- the webhook) and no tracked goroutine is running. It waits for nothing else but server.Shutdown, whose end is one of its steps, and in
-- particular not for an error of the server that was never sent.
pub Reach-Returns :
    (n : ℕ) {r : Runtime} → Reach (started n) r → is_run_done r ≡ true → IsIdle r → Returns r
Reach-Returns n {r = r} run over idle = from r.phase refl
  where
    from : (p : Phase) → r.phase ≡ p → Returns r
    from serving e = from_serving r (Reach-Sound n run) e over idle
    from closing_server e = from_closing_server r e idle
    from awaiting_producers e = from_awaiting_producers r e idle
    from awaiting_runtime e = from_awaiting_runtime r e idle
    from finishing_producers e = from_finishing_producers r e idle
    from finishing_runtime e = from_finishing_runtime r e idle
    from returned e = record { last = r; run = stays; back = e }
