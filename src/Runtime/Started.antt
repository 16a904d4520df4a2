-- ===== src/Runtime/Started.antt =====
-- What Run has done when it begins to serve, and what it leaves behind when it does not.
use cryptopulse_telegram_bot.Prelude.{
  ℕ, ◌+◌, ◌≤◌, ◌≡◌, ◌≢◌, ◌⊎◌, inl, inr, refl, sym, subst, ap, ◌∙◌, arith, Bool, true, Option, none,
  some, All,
}
use cryptopulse_telegram_bot.Bytes.{Bytes}
use cryptopulse_telegram_bot.GoError.{Error}
use cryptopulse_telegram_bot.Workers.{
  notification_worker_count, telegram_reply_worker_count, cron_lock_connection_reserve,
  lock_pool_operational_reserve, database_lock_pool_max_open_connections,
}
use cryptopulse_telegram_bot.Config.{Config, Environment, load}
use cryptopulse_telegram_bot.Config.Valid.{IsValid, Succeeds, load-IsValid}
use cryptopulse_telegram_bot.Session.{Result, ok, err}
use cryptopulse_telegram_bot.Storage.{Pool, open_pool}
use cryptopulse_telegram_bot.Storage.Migrations.{
  Attempt, apply_migrations, applied, with_provider, with_lock, with_connection,
}
use cryptopulse_telegram_bot.Storage.Catalog.{SchemaObject, verify_schema}
use cryptopulse_telegram_bot.Storage.Verified.{needed, verify_schema_iff}
use cryptopulse_telegram_bot.Runtime.Stopping.{started}
use cryptopulse_telegram_bot.Runtime.Starting.{
  PoolState, unopened, closed, opened, Answers, Start, goroutines, leave_run, bot_made, lock_opened,
  schema_verified, migrated, query_opened, start_run,
}

module _ {D : Type 0} (up : D → Result ℕ × D) (a : Answers D) (cfg : Config) (d0 : D) where
  -- Both pools are open, the migrations are applied, the schema is complete, the client of Telegram is
  -- made, and the lock pool has a connection for every worker, for the cron job, and one more.
  pub record Serves (s : Start D) : Type 0 where
    pub query : Pool
    pub lock : Pool
    pub count : ℕ
    pub query_opened : s.query_pool ≡ opened query
    pub lock_opened : s.lock_pool ≡ opened lock
    pub migrated : up d0 ≡ (ok count, s.database)
    pub complete : All (λ o. a.exists s.database o ≡ true) needed
    pub has_bot : a.bot ≡ none
    pub runs : s.runtime ≡ some (started (goroutines cfg))
    pub enough :
        cfg.telegram_update_workers + telegram_reply_worker_count + notification_worker_count
          + cron_lock_connection_reserve + lock_pool_operational_reserve
        ≤ lock.max_open

  -- No pool is open, nothing runs, and only the migrations may have changed the database.
  pub record Stops (s : Start D) : Type 0 where
    pub query_closed : (p : Pool) → s.query_pool ≢ opened p
    pub lock_closed : (p : Pool) → s.lock_pool ≢ opened p
    pub idle : s.runtime ≡ none
    pub database_kept : (s.database ≡ d0) ⊎ (s.database ≡ (up d0).1)

  pub StartOutcome : Start D → Type 0
  StartOutcome s = (s.failure ≡ none → Serves s) × (s.failure ≢ none → Stops s)

  leave_run-StartOutcome :
      (m : Bytes) (e : Error) (d : D) (l : PoolState)
      → ((p : Pool) → l ≢ opened p)
      → (d ≡ d0) ⊎ (d ≡ (up d0).1)
      → StartOutcome (leave_run up a cfg m e d l)
  unfolding StartOutcome
  leave_run-StartOutcome m e d l shut kept = (
    (λ h. cc),
    λ h. record { query_closed = λ p. (cc); lock_closed = shut; idle = refl; database_kept = kept },
  )

  -- What the migrations have come to
  record Migrates (r : Result ℕ × D) : Type 0 where
    all_applied : (count : ℕ) → r.0 ≡ ok count → up d0 ≡ (ok count, r.1)
    kept : (r.1 ≡ d0) ⊎ (r.1 ≡ (up d0).1)

  untouched-Migrates : (e : Error) → Migrates (err e, d0)
  untouched-Migrates e = record { all_applied = λ n h. (cc); kept = inl refl }

  applied-Migrates : (r : Result ℕ × D) → up d0 ≡ r → Migrates (applied up d0 r)
  applied-Migrates (ok n, d) e = record {
    all_applied = λ m h. e ∙ ap (λ x. (x, d)) h;
    kept = inr (sym (ap (λ r. r.1) e));
  }
  applied-Migrates (err x, d) e = record {
    all_applied = λ m h. (cc);
    kept = inr (sym (ap (λ r. r.1) e));
  }

  with_provider-Migrates : (o : Option Error) → Migrates (with_provider up o d0)
  with_provider-Migrates none = applied-Migrates (up d0) refl
  with_provider-Migrates (some e) = untouched-Migrates _

  with_lock-Migrates :
      (t : Attempt) (o : Option Error)
      → let m = with_lock up t o d0 in Migrates (m.result, m.database)
  with_lock-Migrates t none = with_provider-Migrates t.provider
  with_lock-Migrates t (some e) = untouched-Migrates _

  with_connection-Migrates :
      (t : Attempt) (o : Option Error)
      → let m = with_connection up t o d0 in Migrates (m.result, m.database)
  with_connection-Migrates t none = with_lock-Migrates t t.lock
  with_connection-Migrates t (some e) = untouched-Migrates _

  open_pool-Succeeds :
      (o p : Option Error) (name : Bytes) (n k : ℕ)
      → Succeeds (λ (q : Pool). q.max_open ≡ n) (open_pool a.is_parse_config o p name n k)
  unfolding open_pool
  open_pool-Succeeds (some e) p name n k = tt
  open_pool-Succeeds none (some e) name n k = tt
  open_pool-Succeeds none none name n k = refl

  verified_needed :
      (exists : SchemaObject → Bool) (o : Option Error)
      → verify_schema exists o ≡ none
      → All (λ o. exists o ≡ true) needed
  unfolding verify_schema
  verified_needed exists (some e) h = cc
  verified_needed exists none h = (verify_schema_iff exists).1.0 h

  module _ (valid : IsValid cfg) where
    bot_made-StartOutcome :
        (o : Option Error) (d : D) (count : ℕ) (query lock : Pool)
        → up d0 ≡ (ok count, d)
        → All (λ o. a.exists d o ≡ true) needed
        → lock.max_open ≡ database_lock_pool_max_open_connections
        → a.bot ≡ o
        → StartOutcome (bot_made up a cfg o d query lock)
    unfolding bot_made StartOutcome
    bot_made-StartOutcome (some e) d count query lock m c l b =
        leave_run-StartOutcome _ _ d closed (λ p. (cc)) (inr (sym (ap (λ r. r.1) m)))
    bot_made-StartOutcome none d count query lock m c l b = (
      (λ h. record {
        query = query;
        lock = lock;
        count = count;
        query_opened = refl;
        lock_opened = refl;
        migrated = m;
        complete = c;
        has_bot = b;
        runs = refl;
        enough = omega (arith, valid.few_workers, l);
      }),
      λ h. absurd (h refl),
    )

    lock_opened-StartOutcome :
        (r : Result Pool) (d : D) (count : ℕ) (query : Pool)
        → up d0 ≡ (ok count, d)
        → All (λ o. a.exists d o ≡ true) needed
        → Succeeds (λ (p : Pool). p.max_open ≡ database_lock_pool_max_open_connections) r
        → StartOutcome (lock_opened up a cfg r d query)
    unfolding lock_opened StartOutcome
    lock_opened-StartOutcome (err e) d count query m c l =
        leave_run-StartOutcome _ _ d unopened (λ p. (cc)) (inr (sym (ap (λ r. r.1) m)))
    lock_opened-StartOutcome (ok lock) d count query m c l =
        bot_made-StartOutcome a.bot d count query lock m c l refl

    schema_verified-StartOutcome :
        (o : Option Error) (d : D) (count : ℕ) (query : Pool)
        → up d0 ≡ (ok count, d)
        → (o ≡ none → All (λ o. a.exists d o ≡ true) needed)
        → StartOutcome (schema_verified up a cfg o d query)
    unfolding schema_verified StartOutcome
    schema_verified-StartOutcome (some e) d count query m c =
        leave_run-StartOutcome _ _ d unopened (λ p. (cc)) (inr (sym (ap (λ r. r.1) m)))
    schema_verified-StartOutcome none d count query m c =
        lock_opened-StartOutcome _ d count query m (c refl)
          (open_pool-Succeeds a.lock_open a.lock_ping _ _ _)

    migrated-StartOutcome :
        (r : Result ℕ) (d : D) (query : Pool)
        → Migrates (r, d)
        → StartOutcome (migrated up a cfg r d query)
    unfolding migrated StartOutcome
    migrated-StartOutcome (err e) d query m =
        leave_run-StartOutcome _ _ d unopened (λ p. (cc)) m.kept
    migrated-StartOutcome (ok count) d query m =
        schema_verified-StartOutcome _ d count query (m.all_applied count refl)
          (verified_needed (a.exists d) a.schema_query)

    query_opened-StartOutcome : (r : Result Pool) → StartOutcome (query_opened up a cfg r d0)
    unfolding query_opened StartOutcome apply_migrations
    query_opened-StartOutcome (err e) = (
      (λ h. cc),
      λ h. record {
        query_closed = λ p. (cc);
        lock_closed = λ p. (cc);
        idle = refl;
        database_kept = inl refl;
      },
    )
    query_opened-StartOutcome (ok query) =
        migrated-StartOutcome _ _ query (with_connection-Migrates a.attempt a.attempt.connection)

-- The start of the program with a loaded configuration, whatever the libraries answer. If it serves,
-- both pools are open, goose has migrated the database that was found without an error, the database
-- that it has left has every object that the service needs, the client of Telegram is made, all
-- goroutines are started, and the lock pool has a
-- connection for each worker, one for the cron job and one more. If it returns an error, no pool is left
-- open, nothing runs, and the database is as it was found or as goose has left it.
pub start_run-StartOutcome :
    {D : Type 0} (up : D → Result ℕ × D) (a : Answers D) (env : Environment) (cfg : Config) (d : D)
    → load env ≡ ok cfg
    → StartOutcome up a cfg d (start_run up a cfg d)
unfolding start_run
start_run-StartOutcome up a env cfg d h =
    query_opened-StartOutcome up a cfg d (subst (Succeeds IsValid) h (load-IsValid env)) _
