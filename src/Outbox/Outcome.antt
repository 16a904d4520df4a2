-- ===== src/Outbox/Outcome.antt =====
-- How a claim can end, whatever the environment does.
use cryptopulse_telegram_bot.Prelude.{
  ℕ, suc, ◌≤◌, ◌<◌, arith, not, Option, none, some, List, [], ◌∷◌, ℤ, ◌≡◌, refl, sym, subst,
}
use cryptopulse_telegram_bot.Bytes.{Bytes}
use cryptopulse_telegram_bot.GoError.{plain}
use cryptopulse_telegram_bot.Schema.{Db}
use cryptopulse_telegram_bot.Session.{Env, World, Result, Try, ok, err, bump}
use cryptopulse_telegram_bot.Session.Rules.{
  answered_then, confirmed_then, if_then, Interleaved, start, more,
}
use cryptopulse_telegram_bot.Outbox.{
  Outbox, commit_or, commit_claim, claim_or, claim_first, claim_pending,
}

-- A job is returned, none is, or a call fails. Claims token now before after job says that a job is
-- claimed with a token at a time in a database `before`, and that this leads to `after`. The token is the
-- uuid that is made at one of the calls of the claim, the first of which has the number `first`.
module _ {Job : Type 0} (Claims : ℕ → ℕ → Db → Db → Job → Type 0) (env : Env) (d : Db)
    (first now : ℕ) where
  pub data ClaimOutcome (r : Result (Option Job) × World) : Type 0 where
    nothing : r.0 ≡ ok none → Interleaved env d r.1.db → ClaimOutcome r
    claims :
        (job : Job) (before : Db) (n : ℕ)
        → first ≤ n
        → n < r.1.calls
        → r.0 ≡ ok (some job)
        → Interleaved env d before
        → Claims (env.uuid n) now before r.1.db job
        → ClaimOutcome r
    broken : (m : Bytes) → r.0 ≡ err (plain m) → Interleaved env d r.1.db → ClaimOutcome r
    lost :
        (m : Bytes) (job : Job) (before : Db) (n : ℕ)
        → first ≤ n
        → n < r.1.calls
        → r.0 ≡ err (plain m)
        → Interleaved env d before
        → Claims (env.uuid n) now before r.1.db job
        → ClaimOutcome r

commit_or_then :
    {Job : Type 0} (o : Outbox Job) (P : Result (Option Job) × World → Type 0) (env : Env)
    (next : Try (Option Job)) (row : Option Job) (w : World)
    → (row ≡ none → P (next w))
    → ((job : Job) → row ≡ some job → P (commit_claim o env job w))
    → P (commit_or o env next row w)
unfolding commit_or
commit_or_then o P env next none w a b = a refl
commit_or_then o P env next (some job) w a b = b job refl

module _ {Job : Type 0} (o : Outbox Job) (Claims : ℕ → ℕ → Db → Db → Job → Type 0)
    (claimed : (id token now : ℕ) (before : Db) (job : Job)
      → (o.claim_row id token now before).0 ≡ some job
      → Claims token now before (o.claim_row id token now before).1 job)
    (env : Env) (d : Db) (first : ℕ) where
  commit_claim-ClaimOutcome :
      (job : Job) (before : Db) (n : ℕ) (w : World)
      → first ≤ n
      → n < w.calls
      → Interleaved env d before
      → Claims (env.uuid n) w.tx_now before w.view job
      → Interleaved env d w.db
      → ClaimOutcome Claims env d first w.tx_now (commit_claim o env job w)
  commit_claim-ClaimOutcome job before n w l u i c j =
      confirmed_then (ClaimOutcome Claims env d first w.tx_now) o.operation _ _ _ _ _
        (λ m. broken m refl j) (λ m. lost m job before n l (omega (arith, u)) refl i c)
        (claims job before n l (omega (arith, u)) refl i c)

  claim_first-ClaimOutcome :
      (rows : List (ℕ × ℤ)) (w : World)
      → first ≤ w.calls
      → Interleaved env d w.db
      → ClaimOutcome Claims env d first w.tx_now (claim_first o env rows w)
  unfolding claim_first
  claim_first-ClaimOutcome [] w l i = nothing refl i
  claim_first-ClaimOutcome ((id, chat) ∷ rest) w l i =
      answered_then Goal o.operation _ _ _ _ _ (λ m. broken m refl i)
        (if_then Goal (not (env.lock_free w.calls)) (claim_first o env rest)
          (claim_or o env (claim_first o env rest) id) (bump w)
          (λ _. claim_first-ClaimOutcome rest (bump w) (omega (arith, l)) i)
          (λ _.
            answered_then Goal o.operation _ _ _ _ _ (λ m. broken m refl (more _ i))
              (commit_or_then o Goal env _ _ _
                (λ e. claim_first-ClaimOutcome rest _ (omega (arith, l)) (more _ i))
                (λ job e.
                  commit_claim-ClaimOutcome job _ (suc w.calls) _ (omega (arith, l)) (omega arith)
                    (more _ i) (claimed id _ _ _ job e) (more _ i)))))
    where
      Goal : Result (Option Job) × World → Type 0
      Goal = ClaimOutcome Claims env d first w.tx_now

  pub claim_pending-ClaimOutcome :
      (w : World)
      → first ≤ w.calls
      → w.db ≡ d
      → ClaimOutcome Claims env d first (env.clock w.calls) (claim_pending o env w)
  unfolding claim_pending
  claim_pending-ClaimOutcome w l e =
      answered_then Goal o.operation _ _ _ _ _ (λ m. broken m refl begun)
        (answered_then Goal o.operation _ _ _ _ _ (λ m. broken m refl (more _ begun))
          (claim_first-ClaimOutcome _ _ (omega (arith, l)) (more _ begun)))
    where
      Goal : Result (Option Job) × World → Type 0
      Goal = ClaimOutcome Claims env d first (env.clock w.calls)

      begun : Interleaved env d w.db
      begun = subst (Interleaved env d) (sym e) start
