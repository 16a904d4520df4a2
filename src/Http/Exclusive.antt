-- ===== src/Http/Exclusive.antt =====
-- The cron job runs under its lock, and gives it back.
use cryptopulse_telegram_bot.Prelude.{
  ℕ, suc, ◌≡◌, ◌⊎◌, refl, sym, ap, subst, ◌∙◌, inl, inr, arith, Bool, true, false, List, [], ◌∷◌,
  ◌==◌, if_split, if_first, if◌then◌else◌, drop, ℤ, length,
}
use cryptopulse_telegram_bot.GoError.{Error, plain}
use cryptopulse_telegram_bot.App.{App}
use cryptopulse_telegram_bot.Session.{
  Env, World, Result, ok, err, handle, commit, bump, exec, continue, observe_error, counting,
  db_operations_total,
}
use cryptopulse_telegram_bot.Session.Rules.{
  answered_continue, answered_then, answered_cases, confirmed_then, exec_then,
}
use cryptopulse_telegram_bot.Session.Quiet.{
  IsQuiet, IsQuiet-bind, IsQuiet-exec, IsQuiet-observed, Quiet-same,
}
use cryptopulse_telegram_bot.Alert.Rows.{add_job}
use cryptopulse_telegram_bot.Notification.Create.{
  Due, scheduled_job, scheduled_text, create_operation, claim_due, insert_job, insert_jobs,
  insert_and_commit, create_cron_notification_jobs,
}
use cryptopulse_telegram_bot.Http.Endpoints.{
  status_ok, accepted, conflict, internal_server_error, cron_advisory_lock_key,
  acquire_cron_advisory_lock, cron_answer, cron_created, create_locked, cron_acquired, handle_cron,
  released, try_cron_lock,
}

module _ (env : Env) (app : App) where
  insert_job-IsQuiet : (at : ℕ) (d : Due) → IsQuiet env (insert_job env app at d)
  unfolding insert_job
  insert_job-IsQuiet at d w =
      let row = add_job (scheduled_job d (scheduled_text app d.1 at (env.prices w.calls d.1)) at) in
      IsQuiet-observed env create_operation (exec env row) (IsQuiet-exec env row) w

  insert_jobs-IsQuiet : (at : ℕ) (due : List Due) → IsQuiet env (insert_jobs env app at due)
  unfolding insert_jobs
  insert_jobs-IsQuiet at [] w = Quiet-same env w
  insert_jobs-IsQuiet at (d ∷ due) w =
      IsQuiet-bind env (insert_job env app at d) (λ done. insert_jobs env app at due)
        (insert_job-IsQuiet at d) (λ done. insert_jobs-IsQuiet at due) w

  committed_held :
      (n : ℕ) (held : List ℤ) (r : Result (Unit {0}) × World)
      → r.1.held ≡ held
      → (continue
          (λ inserted v.
            continue
              (λ done. counting (db_operations_total create_operation "success") n)
              (observe_error create_operation (commit env v)))
          r).1.held
        ≡ held
  unfolding continue
  committed_held n held (err e, v) k = k
  committed_held n held (ok _, v) k =
      confirmed_then (λ r. r.1.held ≡ held) create_operation _ (env.commit v.calls) (bump v) tt
        (record (bump v) { db = v.view }) (λ m. k) (λ m. k) k

  -- The creation of jobs takes and gives back no session-level lock.
  create_held : (w : World) → (create_cron_notification_jobs env app w).1.held ≡ w.held
  unfolding create_cron_notification_jobs insert_and_commit
  create_held w =
      answered_then Held create_operation _ (env.failure w.calls) (bump w) tt
        (record (bump w) { view = w.db; tx_now = env.clock w.calls; writing = false }) (λ m. refl)
        (exec_then env Held (insert_and_commit env app) create_operation
          (claim_due (env.subscriber_locked (suc w.calls)))
          (record (bump w) { view = w.db; tx_now = env.clock w.calls; writing = false }) (λ m. refl)
          (inserted _ _ refl))
    where
      Held : {A : Type 0} → Result A × World → Type 0
      Held r = r.1.held ≡ w.held

      inserted :
          (c : List Due × ℕ) (v : World) → v.held ≡ w.held → Held (insert_and_commit env app c v)
      inserted (due, at) v k =
          committed_held (length due) w.held (insert_jobs env app at due v)
            ((insert_jobs-IsQuiet at due v).held_kept ∙ k)

  module _ (w : World) where
    -- The world that has the lock.
    abbrev pub locked : World
    locked = record w { calls = suc (suc w.calls); held = cron_advisory_lock_key ∷ w.held }

    pub data CronOutcome (r : ℕ × World) : Type 0 where
      refused :
          (r.0 ≡ conflict) ⊎ (r.0 ≡ internal_server_error)
          → r.1.db ≡ w.db
          → r.1.held ≡ w.held
          → CronOutcome r
      ran :
          env.lock_free (suc w.calls) ≡ true
          → r.1.db ≡ (create_cron_notification_jobs env app locked).1.db
          → r.1.held ≡ w.held
          → ((n : ℕ)
              → (create_cron_notification_jobs env app locked).0 ≡ ok n
              → r.0 ≡ (if n == 0 then status_ok else accepted))
          → ((e : Error)
              → (create_cron_notification_jobs env app locked).0 ≡ err e
              → r.0 ≡ internal_server_error)
          → CronOutcome r

    data Acquired (r : Result Bool × World) : Type 0 where
      failed : (e : Error) → r.0 ≡ err e → r.1.db ≡ w.db → r.1.held ≡ w.held → Acquired r
      busy : r.0 ≡ ok false → r.1.db ≡ w.db → r.1.held ≡ w.held → Acquired r
      got : r.0 ≡ ok true → env.lock_free (suc w.calls) ≡ true → r.1 ≡ locked → Acquired r

    acquired : Acquired (acquire_cron_advisory_lock env w)
    unfolding acquire_cron_advisory_lock
    acquired =
        answered_continue Acquired (λ done. try_cron_lock env) (env.failure w.calls) (bump w) tt
          (bump w) (λ m. failed (plain m) refl refl refl)
          (answered_cases Acquired (env.failure (suc w.calls)) (bump (bump w))
            (env.lock_free (suc w.calls)) _ (λ m. failed (plain m) refl refl refl)
            (free_or (env.lock_free (suc w.calls)) refl))
      where
        free_or :
            (b : Bool)
            → env.lock_free (suc w.calls) ≡ b
            → Acquired (
              ok b,
              record (bump (bump w)) {
                held = if b then cron_advisory_lock_key ∷ w.held else w.held;
              },
            )
        free_or true e = got refl e refl
        free_or false e = busy refl refl refl

    record Ran (r : Result ℕ × World) (c : ℕ × World) : Type 0 where
      db_same : c.1.db ≡ r.1.db
      given_back : c.1.held ≡ w.held
      answers : (n : ℕ) → r.0 ≡ ok n → c.0 ≡ (if n == 0 then status_ok else accepted)
      error_answers : (e : Error) → r.0 ≡ err e → c.0 ≡ internal_server_error

    created-Ran :
        (n : ℕ) (v : World)
        → v.held ≡ locked.held
        → Ran (ok n, v) (released env (cron_created env n v))
    unfolding cron_created
    created-Ran n v k =
        if_split (λ (c : ℕ × World). Ran (ok n, v) (released env c)) (n == 0) _ _
          (λ zero. record {
            db_same = refl;
            given_back = ap (λ held. drop 1 held) k;
            answers = λ m e.
                if_first (λ (code : ℕ). status_ok ≡ code) (m == 0) status_ok accepted
                  (subst (λ x. (x == 0) ≡ true) (same n m e) zero) refl;
            error_answers = λ x e. absurd (differ n x e);
          })
          (λ more. record {
            db_same = refl;
            given_back = ap (λ held. drop 1 held) k;
            answers = λ m e.
                if_split (λ (code : ℕ). accepted ≡ code) (m == 0) status_ok accepted
                  (λ zero.
                    absurd (ground (arith, subst (λ x. (x == 0) ≡ false) (same n m e) more, zero)))
                  (λ h. refl);
            error_answers = λ x e. absurd (differ n x e);
          })
      where
        same : (n m : ℕ) → ok n ≡ ok m → n ≡ m
        same n m e = cc

        differ : (n : ℕ) (x : Error) → ok n ≡ err x → ⊥
        differ n x e = cc

    create-Ran :
        (r : Result ℕ × World)
        → r.1.held ≡ locked.held
        → Ran r (
            released env (
              handle
                (cron_created env)
                (λ e. cron_answer "create_jobs_error" internal_server_error)
                r))
    unfolding handle
    create-Ran (ok n, v) k = created-Ran n v k
    create-Ran (err x, v) k = record {
      db_same = refl;
      given_back = ap (λ held. drop 1 held) k;
      answers = λ n e. absurd (differ n e);
      error_answers = λ e h. refl;
    }
      where
        differ : (n : ℕ) → err x ≡ ok n → ⊥
        differ n e = cc

    outcome :
        (r : Result Bool × World)
        → Acquired r
        → CronOutcome
            (handle (cron_acquired env app) (λ e. cron_answer "lock_error" internal_server_error) r)
    unfolding handle cron_acquired create_locked
    outcome (err e, v) (failed x h d k) = refused (inr refl) d k
    outcome (err e, v) (busy h d k) = absurd (differ h)
      where
        differ : err e ≡ ok false → ⊥
        differ h = cc
    outcome (err e, v) (got h f s) = absurd (differ h)
      where
        differ : err e ≡ ok true → ⊥
        differ h = cc
    outcome (ok false, v) (failed x h d k) = absurd (differ h)
      where
        differ : ok false ≡ err x → ⊥
        differ h = cc
    outcome (ok false, v) (busy h d k) = refused (inl refl) d k
    outcome (ok false, v) (got h f s) = absurd (differ h)
      where
        differ : ok false ≡ ok true → ⊥
        differ h = cc
    outcome (ok true, v) (failed x h d k) = absurd (differ h)
      where
        differ : ok true ≡ err x → ⊥
        differ h = cc
    outcome (ok true, v) (busy h d k) = absurd (differ h)
      where
        differ : ok true ≡ ok false → ⊥
        differ h = cc
    outcome (ok true, v) (got h f s) =
        subst (λ u. CronOutcome (cron_acquired env app true u)) (sym s)
          (let done =
              create-Ran (create_cron_notification_jobs env app locked) (create_held locked) in
            ran f done.db_same done.given_back done.answers done.error_answers)

    -- Scheduled notifications are created under the cron lock only. Either handleCron creates nothing: it
    -- answers with 409 or 500, and the database is as it was. Or the database has given the lock, and the
    -- creation runs while it is held: then the database is the one that the creation leaves, and the
    -- answer is 202 if jobs were created, 200 if none was due, and 500 if the creation failed. In every
    -- case the locks that are held afterwards are those that were held before.
    pub handle_cron-CronOutcome : CronOutcome (handle_cron env app w)
    unfolding handle_cron
    handle_cron-CronOutcome = outcome (acquire_cron_advisory_lock env w) acquired
