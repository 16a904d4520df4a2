-- ===== src/Notification/Fencing.antt =====
-- A claim is good for one end: once the row has been claimed again or the claim has been ended, the
-- job value that a worker still holds is fenced off for ever.
use cryptopulse_telegram_bot.Prelude.{
  ℕ, suc, ◌<◌, ◌≡◌, refl, subst, ◌≢◌, ◌⊎◌, inl, inr, true, false, some, List, [], ◌∷◌, arith,
  ==_refl, is_some_eq_iff, sym, String, if◌then◌else◌, All, Elem,
}
use cryptopulse_telegram_bot.Schema.{NotificationRow, Db, is_sending}
use cryptopulse_telegram_bot.Table.{update, affected}
use cryptopulse_telegram_bot.Notification.Jobs.{
  NotificationJob, Ending, delivered, deferred, withdrawn, given_up, row_change, claimed, owns,
  is_candidate, claimable, claim_row, job_of, end_claim,
}
use cryptopulse_telegram_bot.Notification.Moves.{Moves, OthersMove, IsStable, Holds, Moves-Holds}
use cryptopulse_telegram_bot.Notification.Finish.{finish}
use cryptopulse_telegram_bot.Notification.Outcome.{
  Ends, done, stale, broken, lost, owned, finish-FinishOutcome,
}
use cryptopulse_telegram_bot.Session.{Env, World, ok}
use cryptopulse_telegram_bot.Session.Rules.{Interleaved, start, more}

-- The row is another one, or it has been claimed since, or the claim has been ended.
abbrev pub IsFenced : NotificationJob → NotificationRow → Type 0
IsFenced job row =
    (row.id ≢ job.id)
    ⊎ (job.attempts < row.attempts)
    ⊎ ((row.attempts ≡ job.attempts) × (is_sending row.status ≡ false))

abbrev pub Fenced : NotificationJob → Db → Type 0
Fenced job db = All (IsFenced job) db.notification_jobs

fenced-owns :
    (job : NotificationJob) (row : NotificationRow) → IsFenced job row → owns job row ≡ false
fenced-owns job row h = ground arith

fenced_affected :
    (job : NotificationJob) (rows : List NotificationRow)
    → All (IsFenced job) rows
    → affected (owns job) rows ≡ 0
fenced_affected job [] h = refl
fenced_affected job (row ∷ rows) h = rw (fenced-owns job row h.0) (fenced_affected job rows h.1)

row_change-IsFenced :
    (job : NotificationJob) (ending : Ending) (now : ℕ) (row : NotificationRow)
    → IsFenced job row
    → IsFenced job (row_change ending now row)
row_change-IsFenced job delivered now row h = ground arith
row_change-IsFenced job (deferred delay error) now row h = ground arith
row_change-IsFenced job withdrawn now row h = ground arith
row_change-IsFenced job (given_up error permanent) now row h = ground arith

IsFenced-IsStable : (job : NotificationJob) → IsStable (IsFenced job) (job.id ∷ [])
IsFenced-IsStable job = record {
  claim_keeps = λ token now row c h. ground arith;
  end_keeps = λ other ending now row c h. row_change-IsFenced job ending now row h;
  withdraw_keeps = λ error now row c h. ground arith;
  new_holds = λ row b n. inl b.0;
}

-- A worker whose job is fenced off when its write runs is told so, or fails, and writes nothing.
pub finish-Fenced :
    (env : Env) (operation : String) (job : NotificationJob) (ending : Ending) (w : World)
    → Fenced job (env.others (suc w.calls) w.db)
    → ((finish env operation job ending w).0 ≢ ok tt)
      × Interleaved env w.db (finish env operation job ending w).1.db
finish-Fenced env operation job ending w f =
    by_end (finish-FinishOutcome env job ending w operation).ends
  where
    none_owned : owned env job ending w ≡ 0
    none_owned = fenced_affected job found_rows f
      where
        found_rows : List NotificationRow
        found_rows = (env.others (suc w.calls) w.db).notification_jobs

    untouched : {e : Db} → (e ≡ w.db) ⊎ (e ≡ env.others (suc w.calls) w.db) → Interleaved env w.db e
    untouched (inl p) = subst (Interleaved env w.db) (sym p) start
    untouched (inr p) = subst (Interleaved env w.db) (sym p) (more (suc w.calls) start)

    by_end :
        Ends env job ending w (finish env operation job ending w)
        → ((finish env operation job ending w).0 ≢ ok tt)
          × Interleaved env w.db (finish env operation job ending w).1.db
    by_end (done r o e) = absurd (omega (arith, none_owned, o))
    by_end (stale r o e) = ((λ i. cc), untouched (inr e))
    by_end (broken m r e) = ((λ i. cc), untouched e)
    by_end (lost m r o e) = absurd (omega (arith, none_owned, o))

-- The job's claim stands or has been passed: no row with its id has been claimed less often, and one
-- that is still being sent after as many claims is being sent under the job's token.
abbrev pub HasClaimed : NotificationJob → NotificationRow → Type 0
HasClaimed job row =
    (row.id ≢ job.id)
    ⊎ (job.attempts < row.attempts)
    ⊎ ((row.attempts ≡ job.attempts)
        × ((is_sending row.status ≡ false) ⊎ (row.claim_token ≡ some job.claim_token)))

abbrev pub Claimed : NotificationJob → Db → Type 0
Claimed job db = All (HasClaimed job) db.notification_jobs

ended-IsFenced :
    (job : NotificationJob) (ending : Ending) (now : ℕ) (row : NotificationRow)
    → HasClaimed job row
    → IsFenced job (if owns job row then row_change ending now row else row)
ended-IsFenced job delivered now row h =
    ground (arith, is_some_eq_iff row.claim_token job.claim_token)
ended-IsFenced job (deferred delay error) now row h =
    ground (arith, is_some_eq_iff row.claim_token job.claim_token)
ended-IsFenced job withdrawn now row h =
    ground (arith, is_some_eq_iff row.claim_token job.claim_token)
ended-IsFenced job (given_up error permanent) now row h =
    ground (arith, is_some_eq_iff row.claim_token job.claim_token)

ended_rows :
    (job : NotificationJob) (ending : Ending) (now : ℕ) (rows : List NotificationRow)
    → All (HasClaimed job) rows
    → All (IsFenced job) (update (owns job) (row_change ending now) rows)
ended_rows job ending now [] h = tt
ended_rows job ending now (row ∷ rows) h =
    (ended-IsFenced job ending now row h.0, ended_rows job ending now rows h.1)

-- PRIMARY KEY (id): a row is the only one with its id.
abbrev pub OneRow : NotificationRow → List NotificationRow → Type 0
OneRow row = All (λ other. (other.id ≢ row.id) ⊎ (other ≡ row))

claimed_rows :
    (row : NotificationRow) (token now : ℕ) (rows : List NotificationRow)
    → claimable now row ≡ true
    → OneRow row rows
    → All
        (HasClaimed (job_of token row))
        (update (is_candidate row.id now) (claimed token now) rows)
claimed_rows row token now [] c u = tt
claimed_rows row token now (other ∷ rows) c u = (one u.0, claimed_rows row token now rows c u.1)
  where
    one :
        (other.id ≢ row.id) ⊎ (other ≡ row)
        → HasClaimed
            (job_of token row)
            (if is_candidate row.id now other then claimed token now other else other)
    one (inl ne) = ground arith
    one (inr e) = rw e (ground (arith, ==_refl row.id))

-- Right after a claim the job has claimed its row.
pub claim_row-Claimed :
    (row : NotificationRow) (token now : ℕ) (d : Db)
    → claimable now row ≡ true
    → OneRow row d.notification_jobs
    → Claimed (job_of token row) (claim_row row.id token now d).1
unfolding claim_row
claim_row-Claimed row token now d c u = claimed_rows row token now d.notification_jobs c u

-- A claim ends once: from the end of a claim on, whatever moves are made by anybody, each of the four
-- writes that the same worker tries once more fails, and writes nothing (what changes is by others).
-- (The job's id is one that the table has given to a row.)
pub finish_after_end :
    (env : Env) (operation : String) (job : NotificationJob) (first second : Ending) (t : ℕ)
    (d : Db) (w : World)
    → OthersMove env
    → Elem job.id d.job_ids
    → Claimed job d
    → Moves (end_claim job first t d) w.db
    → ((finish env operation job second w).0 ≢ ok tt)
      × Interleaved env w.db (finish env operation job second w).1.db
unfolding end_claim
finish_after_end env operation job first second t d w others passed c moves =
    finish-Fenced env operation job second w (fenced_later fenced_now).1
  where
    fenced_now : Holds (IsFenced-IsStable job) (end_claim job first t d)
    fenced_now = ((passed, tt), ended_rows job first t d.notification_jobs c)

    fenced_later :
        Holds (IsFenced-IsStable job) (end_claim job first t d)
        → Holds (IsFenced-IsStable job) (env.others (suc w.calls) w.db)
    fenced_later h =
        Moves-Holds (IsFenced-IsStable job) (others (suc w.calls) w.db)
          (Moves-Holds (IsFenced-IsStable job) moves h)
