-- ===== src/SentFinalization/Attempts.antt =====
-- Which attempts the finalization makes, and what it reports of them.
use cryptopulse_telegram_bot.Prelude.{
  ℕ, suc, ◌+◌, ◌≤◌, ◌-◌, ◌≡◌, refl, ap, subst, ◌↔◌, inl, inr, Bool, true, false, Option, none, some,
  List, [], ◌∷◌, arith, length, ℤ, pos, negsuc, leb_ℤ, ltb_ℤ, Bool-cases,
}
use cryptopulse_telegram_bot.Bytes.{Bytes}
use cryptopulse_telegram_bot.GoError.{Error, plain, is_ownership_lost}
use cryptopulse_telegram_bot.Session.{Env, World, Try, Result, ok, err, bump}
use cryptopulse_telegram_bot.Session.Rules.{handle_then, unless_done_then, act_if_then}
use cryptopulse_telegram_bot.SentFinalization.{
  SentFinalizationPolicy, join, finalize_from, finalize, conclude, wait_and,
}

-- The attempts made from a world on, with the result of the last one: another attempt follows only an
-- error that is not the loss of ownership. A pause is a look at the context.
pub data Attempts (run : Try (Unit {0})) (w : World)
    : ℕ → Option (Result (Unit {0})) → World → Type 0 where
  before : Attempts run w 0 none w
  pause :
      {n : ℕ} {r : Option (Result (Unit {0}))} {u : World}
      → Attempts run w n r u
      → Attempts run w n r (bump u)
  first : {u : World} → Attempts run w 0 none u → Attempts run w 1 (some (run u).0) (run u).1
  again :
      {n : ℕ} {e : Error} {u : World}
      → Attempts run w n (some (err e)) u
      → is_ownership_lost e ≡ false
      → Attempts run w (suc n) (some (run u).0) (run u).1

abbrev pub lost_ownership : Option Error → Bool
lost_ownership none = false
lost_ownership (some e) = is_ownership_lost e

abbrev pub result_lost : Option (Result (Unit {0})) → Bool
result_lost none = false
result_lost (some (ok _)) = false
result_lost (some (err e)) = is_ownership_lost e

pub record FinalizeOutcome (run : Try (Unit {0})) (limit : ℕ) (w : World)
    (r : (ℕ × Option Error) × World) : Type 0 where
  pub last : Option (Result (Unit {0}))
  pub made : Attempts run w r.0.0 last r.1
  pub bounded : r.0.0 ≤ limit
  pub success_iff : (r.0.1 ≡ none) ↔ (last ≡ some (ok tt))
  pub ownership : lost_ownership r.0.1 ≡ result_lost last

module _ (env : Env) (run : Try (Unit {0})) (limit : ℕ) (w : World) where
  -- So far n attempts have been made, and the error of the last one, if any, was inconclusive.
  data Pending (u : World) : ℕ → Option Error → Type 0 where
    fresh : Attempts run w 0 none u → Pending u 0 none
    failing :
        {n : ℕ} {e : Error}
        → Attempts run w n (some (err e)) u
        → is_ownership_lost e ≡ false
        → Pending u n (some e)

  -- The loop stops at the end of the context, before or after a pause.
  stopped :
      {u : World} {n : ℕ} {last : Option Error} (m : Bytes)
      → Pending u n last
      → n ≤ limit
      → FinalizeOutcome run limit w ((n, some (join last (plain m))), u)
  unfolding is_ownership_lost
  stopped m (fresh a) h = record {
    last = none;
    made = a;
    bounded = h;
    success_iff = ((λ e. cc), (λ e. cc));
    ownership = refl;
  }
  stopped m (failing {e = x} a i) h = record {
    last = some (err x);
    made = a;
    bounded = h;
    success_iff = ((λ e. cc), (λ e. cc));
    ownership = ground arith;
  }

  paused : {u : World} {n : ℕ} {last : Option Error} → Pending u n last → Pending (bump u) n last
  paused (fresh a) = fresh (pause a)
  paused (failing a i) = failing (pause a) i

  ran :
      {u : World} {n : ℕ} {last : Option Error}
      → Pending u n last
      → Attempts run w (suc n) (some (run u).0) (run u).1
  ran (fresh a) = first a
  ran (failing a i) = again a i

  succeeded :
      {u : World} {n : ℕ} {x : Unit {0}} (r : Option (Result (Unit {0})))
      → Attempts run w n r u
      → r ≡ some (ok x)
      → n ≤ limit
      → FinalizeOutcome run limit w ((n, none), u)
  succeeded r a e h = record {
    last = r;
    made = a;
    bounded = h;
    success_iff = ((λ _. e), (λ _. refl));
    ownership = rw e;
  }

  reported :
      {u : World} {n : ℕ} {x : Error} (r : Option (Result (Unit {0})))
      → Attempts run w n r u
      → r ≡ some (err x)
      → n ≤ limit
      → FinalizeOutcome run limit w ((n, some x), u)
  reported r a e h = record {
    last = r;
    made = a;
    bounded = h;
    success_iff = ((λ i. cc), (λ i. cc));
    ownership = rw e;
  }

  failing_of :
      {u : World} {n : ℕ} {x : Error} (r : Option (Result (Unit {0})))
      → Attempts run w n r u
      → r ≡ some (err x)
      → is_ownership_lost x ≡ false
      → Pending u n (some x)
  failing_of {u} {n} r a e i = failing (subst (λ o. Attempts run w n o u) e a) i

  stopped_early :
      {u : World} {n : ℕ} {last : Option Error} (m : Bytes)
      → Pending u n last
      → suc n ≤ limit
      → FinalizeOutcome run limit w ((suc n - 1, some (join last (plain m))), u)
  stopped_early {u} {n} {last} m p h =
      subst (λ k. FinalizeOutcome run limit w ((k, some (join last (plain m))), u)) (omega arith)
        (stopped m p (omega arith))

  finalize_from-FinalizeOutcome :
      (n : ℕ) (last : Option Error) (delays : List ℕ) (u : World)
      → Pending u n last
      → suc n + length delays ≤ limit
      → FinalizeOutcome run limit w (finalize_from env run (suc n) last delays u)
  unfolding finalize_from
  finalize_from-FinalizeOutcome n last [] u p h =
      unless_done_then (FinalizeOutcome run limit w) _ _ _ _
        (λ m. stopped_early m (paused p) (omega arith))
        (handle_then (FinalizeOutcome run limit w) _ _ _
          (λ a e. succeeded _ (ran (paused p)) (ap some e) (omega arith))
          (λ x e. reported _ (ran (paused p)) (ap some e) (omega arith)))
  finalize_from-FinalizeOutcome n last (delay ∷ delays) u p h =
      unless_done_then (FinalizeOutcome run limit w) _ _ _ _
        (λ m. stopped_early m (paused p) (omega arith))
        (handle_then (FinalizeOutcome run limit w) _ _ _
          (λ a e. succeeded _ (ran (paused p)) (ap some e) (omega arith))
          (λ x e.
            act_if_then (FinalizeOutcome run limit w) (is_ownership_lost x)
              (conclude (suc n, some x))
              (wait_and env (suc n) x (finalize_from env run (suc (suc n)) (some x) delays)) _
              (λ i. reported _ (ran (paused p)) (ap some e) (omega arith))
              (λ i.
                let p' = paused (failing_of _ (ran (paused p)) (ap some e) i) in
                unless_done_then (FinalizeOutcome run limit w) _ _ _ _
                  (λ m. stopped m p' (omega arith))
                  (finalize_from-FinalizeOutcome (suc n) (some x) delays _ p' (omega arith)))))

-- With a positive budget the finalization makes at most one attempt more than there are delays and
-- reports their number; it goes on only after an error that is not the loss of ownership, and stops
-- at the first success or loss of ownership; it reports success exactly when the last attempt
-- succeeded, and the loss of ownership exactly when the last attempt did.
pub finalize-FinalizeOutcome :
    (env : Env) (policy : SentFinalizationPolicy) (run : Try (Unit {0})) (w : World)
    → ltb_ℤ (pos 0) policy.budget ≡ true
    → FinalizeOutcome run (suc (length policy.delays)) w (finalize env policy run w)
unfolding finalize
finalize-FinalizeOutcome env policy run w h = elim (Bool-cases (leb_ℤ policy.budget (pos 0))) [
  | inl e ↦ absurd (not_both policy.budget h e)
  | inr e ↦ rw e (
      finalize_from-FinalizeOutcome env run (suc (length policy.delays)) w 0 none policy.delays w
        (fresh before) (omega arith))
]
  where
    not_both : (b : ℤ) → ltb_ℤ (pos 0) b ≡ true → leb_ℤ b (pos 0) ≡ true → ⊥
    not_both (pos n) p q = ground arith
    not_both (negsuc n) p q = ground arith
