-- ===== src/SentFinalization.antt =====
-- internal/app/sent_finalization.go: after Telegram has confirmed a delivery only the database write
-- is retried. The environment's context decides when the budget has run out.
pub mod Attempts
use cryptopulse_telegram_bot.Prelude.{
  ℕ, suc, ◌+◌, ◌-◌, Bool, Option, none, some, List, [], ◌∷◌, if◌then◌else◌, ℤ, pos, leb_ℤ,
}
use cryptopulse_telegram_bot.Bytes.{Bytes, bytes}
use cryptopulse_telegram_bot.GoError.{Error, plain, joined, is_ownership_lost}
use cryptopulse_telegram_bot.Session.{
  Env, World, Act, Try, Result, ok, err, handle, unless_done, check_context,
}

pub record SentFinalizationPolicy : Type 0 where
  pub budget : ℤ
  pub delays : List ℕ

-- Milliseconds of the source, in nanoseconds.
abbrev pub default_sent_finalization_policy : SentFinalizationPolicy
default_sent_finalization_policy = record {
  budget = pos 5_000_000_000;
  delays = 100_000_000 ∷ 250_000_000 ∷ 500_000_000 ∷ 1_000_000_000 ∷ [];
}

-- errors.Join, which leaves a nil error out.
abbrev pub join : Option Error → Error → Error
join none e = e
join (some last) e = joined last e

-- An inconclusive error: the loop waits for the timer or for the end of the context.
abbrev pub wait_and : Env → ℕ → Error → Act (ℕ × Option Error) → Act (ℕ × Option Error)
wait_and env attempt e retry w =
    unless_done (check_context env w).0 (λ m. (attempt, some (joined e (plain m)))) retry
      (check_context env w).1

abbrev pub conclude : ℕ × Option Error → Act (ℕ × Option Error)
conclude outcome w = (outcome, w)

-- The loop: `attempt` is the number of the next attempt, `last` the error of the one before, and the
-- list holds the delays that are left, so that it is empty at the last attempt.
unfoldable pub finalize_from :
    Env → Try (Unit {0}) → ℕ → Option Error → List ℕ → Act (ℕ × Option Error)
finalize_from env run attempt last [] w =
    unless_done (check_context env w).0 (λ m. (attempt - 1, some (join last (plain m))))
      (λ w'. handle (λ _. conclude (attempt, none)) (λ e. conclude (attempt, some e)) (run w'))
      (check_context env w).1
finalize_from env run attempt last (delay ∷ delays) w =
    unless_done (check_context env w).0 (λ m. (attempt - 1, some (join last (plain m))))
      (λ w'.
        handle (λ _. conclude (attempt, none))
          (λ e.
            if is_ownership_lost e
            then conclude (attempt, some e)
            else wait_and env attempt e (finalize_from env run (suc attempt) (some e) delays))
          (run w'))
      (check_context env w).1

unfoldable pub finalize : Env → SentFinalizationPolicy → Try (Unit {0}) → Act (ℕ × Option Error)
unfolding finalize_from
finalize env p run w =
    if leb_ℤ p.budget (pos 0)
    then ((0, some (plain (bytes "invalid sent finalization budget"))), w)
    else finalize_from env run 1 none p.delays w
