-- ===== src/Runtime/Stopped.antt =====
-- What holds at every moment of a run of the program.
use cryptopulse_telegram_bot.Prelude.{
  ℕ, ◌≡◌, ◌≢◌, ◌⊎◌, inl, inr, refl, arith, Bool, true, false, Option, none, some,
}
use cryptopulse_telegram_bot.GoError.{Error}
use cryptopulse_telegram_bot.Http.{enter, leave, stop_accepting_producers}
use cryptopulse_telegram_bot.Runtime.Stopping.{
  Phase, serving, closing_server, awaiting_producers, awaiting_runtime, finishing_producers,
  finishing_runtime, returned, Runtime, started, is_run_done, Choice, done, failed, late,
  begin_shutdown, receive, run_ended, close_pools, runtime_awaited, main_at, main_step, exit_error,
  Step, main, entered, left, ended, interrupted, server_failed, server_stopped, time_over, Reach,
  here, next,
}

abbrev is_serving : Phase → Bool
is_serving serving = true
is_serving _ = false

-- Whether waitForProducers has returned, and whether no handler of a producer can be running any more.
abbrev is_past : Phase → Bool
is_past serving = false
is_past closing_server = false
is_past awaiting_producers = false
is_past _ = true

abbrev is_empty : Phase → Bool
is_empty finishing_runtime = true
is_empty returned = true
is_empty _ = false

past_serving : (p : Phase) → is_past p ≡ true → is_serving p ≡ false
past_serving serving h = ground (arith, h)
past_serving closing_server h = refl
past_serving awaiting_producers h = refl
past_serving awaiting_runtime h = refl
past_serving finishing_producers h = refl
past_serving finishing_runtime h = refl
past_serving returned h = refl

empty_past : (p : Phase) → is_empty p ≡ true → is_past p ≡ true
empty_past finishing_runtime h = refl
empty_past returned h = refl
empty_past serving h = ground (arith, h)
empty_past closing_server h = ground (arith, h)
empty_past awaiting_producers h = ground (arith, h)
empty_past awaiting_runtime h = refl
empty_past finishing_producers h = refl

pub record Sound (r : Runtime) : Type 0 where
  pub closed : r.pools_open ≡ false → is_empty r.phase ≡ true
  pub closed_quiet : r.pools_open ≡ false → (r.producers.active ≡ 0) × (r.running ≡ 0)
  pub shut :
      is_serving r.phase ≡ false → (r.producers.shutting_down ≡ true) × (is_run_done r ≡ true)
  pub workers : r.workers_done ≡ is_past r.phase
  pub drained : is_past r.phase ≡ true → (r.producers.active ≡ 0) ⊎ (r.producers_late ≡ true)
  pub emptied : is_empty r.phase ≡ true → r.producers.active ≡ 0
  pub punctual : r.producers_late ≡ true → r.budget_over ≡ true
  pub reported : r.run_done ≡ true → r.has_failed ≡ true
  pub sent : r.server_err ≢ none → r.has_failed ≡ true
  pub unread : is_serving r.phase ≡ true → r.has_failed ≡ true → r.server_err ≢ none
  pub explained : is_serving r.phase ≡ false → r.run_err ≡ none → r.parent_done ≡ true

started-Sound : (n : ℕ) → Sound (started n)
unfolding started
started-Sound n = ground arith

main_at-Sound :
    (p : Phase) (c : Choice) (r s : Runtime)
    → r.phase ≡ p
    → Sound r
    → main_at p c r ≡ some s
    → Sound s
unfolding main_at receive run_ended close_pools runtime_awaited begin_shutdown
    stop_accepting_producers
main_at-Sound serving done r s e h m = ground (arith, h, m)
main_at-Sound serving failed r s e h m = ground (arith, h, m)
main_at-Sound serving late r s e h m = ground (arith, m)
main_at-Sound closing_server c r s e h m = ground (arith, h, m)
main_at-Sound awaiting_producers done r s e h m = ground (arith, h, m)
main_at-Sound awaiting_producers failed r s e h m = ground (arith, m)
main_at-Sound awaiting_producers late r s e h m = ground (arith, h, m)
main_at-Sound awaiting_runtime done r s e h m = ground (arith, h, m)
main_at-Sound awaiting_runtime failed r s e h m = ground (arith, m)
main_at-Sound awaiting_runtime late r s e h m = ground (arith, h, m)
main_at-Sound finishing_producers c r s e h m = ground (arith, h, m)
main_at-Sound finishing_runtime c r s e h m = ground (arith, h, m)
main_at-Sound returned c r s e h m = ground (arith, m)

Step-Sound : (r s : Runtime) → Sound r → Step r s → Sound s
unfolding main_step enter leave
Step-Sound r s h (main c m) = main_at-Sound r.phase c r s refl h m
Step-Sound r s h (entered e) = ground (arith, h, e, past_serving r.phase, empty_past r.phase)
Step-Sound r s h (left some_active) = ground (arith, h)
Step-Sound r s h (ended some_running) = ground (arith, h)
Step-Sound r s h interrupted = ground (arith, h)
Step-Sound r s h (server_failed e runs first) = ground (arith, h)
Step-Sound r s h (server_stopped runs sent) = ground (arith, h)
Step-Sound r s h time_over = ground (arith, h)

pub Reach-Sound : (n : ℕ) {r : Runtime} → Reach (started n) r → Sound r
Reach-Sound n here = started-Sound n
Reach-Sound n (next {s = s} {t = t} run step) = Step-Sound s t (Reach-Sound n run) step

pub record Orderly (r : Runtime) : Type 0 where
  pub quiet : r.pools_open ≡ false → (r.producers.active ≡ 0) × (r.running ≡ 0)
  pub producers_first : r.workers_done ≡ true → (r.producers.active ≡ 0) ⊎ (r.budget_over ≡ true)
  pub all_told : r.workers_done ≡ true → (r.producers.shutting_down ≡ true) × (is_run_done r ≡ true)
  pub reported_or_asked :
      r.phase ≡ returned → (exit_error r.run_err ≢ none) ⊎ (r.parent_done ≡ true)

-- The shutdown keeps its order at every moment of every run, whatever the handlers, the goroutines, the
-- server, the signals and the clock do. A producer's handler is one of /cron or of the webhook: producerWG
-- counts these and no other. The pools are closed only when no producer's handler and no tracked
-- goroutine is running any more, even if the time limit is over. The workers are told to stop only when
-- no producer's handler is left or the time limit is over, and then the producers' requests are refused
-- and runCtx has ended. Run returns with the server's error, or because its own context has been
-- canceled.
pub Reach-Orderly : (n : ℕ) {r : Runtime} → Reach (started n) r → Orderly r
unfolding exit_error
Reach-Orderly n {r = r} run =
    let h = Reach-Sound n run in
    record {
      quiet = h.closed_quiet;
      producers_first = λ e. ground (arith, h, e);
      all_told = λ e. ground (arith, h, e, past_serving r.phase);
      reported_or_asked = λ e. by_error r.run_err refl e;
    }
  where
    by_error :
        (o : Option Error)
        → r.run_err ≡ o
        → r.phase ≡ returned
        → (exit_error r.run_err ≢ none) ⊎ (r.parent_done ≡ true)
    by_error none e p = inr ((Reach-Sound n run).explained (rw p refl) e)
    by_error (some x) e p = inl (rw e (λ i. cc))
