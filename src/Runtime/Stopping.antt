-- ===== src/Runtime/Stopping.antt =====
-- Run of internal/app/run.go from its select on: how the program shuts down, as the steps of its main
-- goroutine beside the handlers, the tracked goroutines, the signals and the clock.
use cryptopulse_telegram_bot.Prelude.{
  ℕ, ◌-◌, ◌<◌, ◌≡◌, Bool, true, false, ◌||◌, Option, none, some, ◌==◌, if◌then◌else◌,
}
use mathlib.Core.Option
use cryptopulse_telegram_bot.Bytes.{bytes}
use cryptopulse_telegram_bot.GoError.{Error, wrapped}
use cryptopulse_telegram_bot.Http.{Producers, enter, leave, stop_accepting_producers}

-- Where the main goroutine is: in the select, in server.Shutdown, in waitForProducers, in
-- waitForWaitGroup, in the two waits without a limit, or back in its caller.
pub data Phase : Type 0 where
  serving closing_server awaiting_producers awaiting_runtime finishing_producers finishing_runtime
        returned :
      Phase

-- The variables of Run, and what its goroutines share: the counts of producerWG (in producers) and of
-- runtimeWG, the contexts (parent_done is ctx, run_done the cancelation of runCtx itself, workers_done
-- that of workerCtx), the channel serverErr with whether something was sent to it, whether the time
-- limit of shutdownCtx is over, and whether the pools of the database are open.
pub record Runtime : Type 0 where
  pub phase : Phase
  pub producers : Producers
  pub running : ℕ
  pub parent_done : Bool
  pub run_done : Bool
  pub workers_done : Bool
  pub server_err : Option Error
  pub has_failed : Bool
  pub budget_over : Bool
  pub run_err : Option Error
  pub producers_late : Bool
  pub runtime_late : Bool
  pub pools_open : Bool

-- When serving begins: some goroutines run, and no request has come yet.
unfoldable pub started : ℕ → Runtime
started goroutines = record {
  phase = serving;
  producers = record { shutting_down = false; active = 0 };
  running = goroutines;
  parent_done = false;
  run_done = false;
  workers_done = false;
  server_err = none;
  has_failed = false;
  budget_over = false;
  run_err = none;
  producers_late = false;
  runtime_late = false;
  pools_open = true;
}

-- runCtx ends with ctx, or by stopRun.
abbrev pub is_run_done : Runtime → Bool
is_run_done r = r.parent_done || r.run_done

-- The case of a select: of the first one runCtx.Done() or serverErr, of the others done or ctx.Done().
pub data Choice : Type 0 where
  done failed late : Choice

-- The end of serving
unfoldable pub begin_shutdown : Option Error → Runtime → Runtime
unfolding stop_accepting_producers
begin_shutdown e r = record r {
  run_err = e;
  producers = stop_accepting_producers r.producers;
  phase = closing_server;
}

-- runErr = <-serverErr; none while nothing is there.
unfoldable pub receive : Option Error → Runtime → Option Runtime
unfolding begin_shutdown
receive none r = none
receive (some e) r = some (begin_shutdown (some e) (record r { server_err = none }))

unfoldable pub run_ended : Runtime → Option Runtime
unfolding begin_shutdown receive
run_ended r = if r.parent_done then some (begin_shutdown none r) else receive r.server_err r

-- stopWorkers, after waitForProducers
abbrev pub producers_awaited : Bool → Runtime → Runtime
producers_awaited is_late r = record r {
  producers_late = is_late;
  workers_done = true;
  phase = awaiting_runtime;
}

-- The deferred calls: both pools are closed.
unfoldable pub close_pools : Runtime → Runtime
close_pools r = record r { pools_open = false; phase = returned }

-- After waitForWaitGroup: with an error of one of the two, there are waits without a limit.
unfoldable pub runtime_awaited : Bool → Runtime → Runtime
unfolding close_pools
runtime_awaited is_late r =
    if r.producers_late || is_late
    then record r { runtime_late = is_late; phase = finishing_producers }
    else close_pools (record r { runtime_late = is_late })

-- The select of a wait: the counter is zero, or the time is over; none while it blocks, and otherwise
-- whether there is an error.
abbrev pub wait_for : Bool → Bool → Choice → Option Bool
wait_for is_zero is_over done = if is_zero then some false else none
wait_for is_zero is_over late = if is_over then some true else none
wait_for is_zero is_over failed = none

unfoldable pub wait_for_producers : Runtime → Choice → Option Bool
wait_for_producers r = wait_for (r.producers.active == 0) r.budget_over

unfoldable pub wait_for_wait_group : Runtime → Choice → Option Bool
wait_for_wait_group r = wait_for (r.running == 0) r.budget_over

-- The next step of the main goroutine; none while it blocks, and when it has returned.
unfoldable pub main_at : Phase → Choice → Runtime → Option Runtime
unfolding receive run_ended close_pools runtime_awaited wait_for_producers wait_for_wait_group
main_at serving done r = if is_run_done r then run_ended r else none
main_at serving failed r = receive r.server_err (record r { run_done = true })
main_at serving late r = none
main_at closing_server c r = some (record r { phase = awaiting_producers })
main_at awaiting_producers c r =
    Option.map (λ is_late. producers_awaited is_late r) (wait_for_producers r c)
main_at awaiting_runtime c r =
    Option.map (λ is_late. runtime_awaited is_late r) (wait_for_wait_group r c)
main_at finishing_producers c r =
    if r.producers.active == 0 then some (record r { phase = finishing_runtime }) else none
main_at finishing_runtime c r = if r.running == 0 then some (close_pools r) else none
main_at returned c r = none

unfoldable pub main_step : Choice → Runtime → Option Runtime
unfolding main_at
main_step c r = main_at r.phase c r

-- What Run returns
unfoldable pub exit_error : Option Error → Option Error
exit_error none = none
exit_error (some e) = some (wrapped (bytes "HTTP server stopped unexpectedly") e)

-- A step of the program.
pub data Step (r : Runtime) : Runtime → Type 0 where
  main : (c : Choice) {s : Runtime} → main_step c r ≡ some s → Step r s
  entered : {q : Producers} → enter r.producers ≡ some q → Step r (record r { producers = q })
  left : 0 < r.producers.active → Step r (record r { producers = leave r.producers })
  -- A tracked goroutine returns.
  ended : 0 < r.running → Step r (record r { running = r.running - 1 })
  interrupted : Step r (record r { parent_done = true })
  -- The goroutine of the server: serverErr <- listenErr, and then stopRun().
  server_failed :
      (e : Error)
      → 0 < r.running
      → r.has_failed ≡ false
      → Step r (record r { server_err = some e; has_failed = true })
  server_stopped : 0 < r.running → r.has_failed ≡ true → Step r (record r { run_done = true })
  time_over : Step r (record r { budget_over = true })

pub data Reach (r : Runtime) : Runtime → Type 0 where
  here : Reach r r
  next : {s t : Runtime} → Reach r s → Step s t → Reach r t
