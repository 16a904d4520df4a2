-- ===== src/Polling/Delivers.antt =====
-- Claims of notifications in an environment where nothing fails.
use cryptopulse_telegram_bot.Prelude.{
  ℕ, suc, ◌+◌, ◌≡◌, refl, subst, inl, inr, arith, Bool, true, false, none, some, List, [], ◌∷◌, All,
  Elem, select, if◌then◌else◌,
}
use cryptopulse_telegram_bot.Schema.{NotificationRow}
use cryptopulse_telegram_bot.Table.{find, order_by}
use cryptopulse_telegram_bot.Table.Laws.{
  find_holds, All-order_by, All-select-Elem, Elem-order_by, Elem-select,
}
use cryptopulse_telegram_bot.Session.{
  Env, World, ok, applied, delivered, continue, observe_error, answered, confirmed,
}
use cryptopulse_telegram_bot.Outbox.{claim_pending, claim_first, commit_or}
use cryptopulse_telegram_bot.Notification.Jobs.{
  claimable, is_candidate, claim_row, job_of, scheduled_before, and_claimable,
}
use cryptopulse_telegram_bot.Notification.Claim.{claim_pending_notification_job}

-- Nothing fails, nobody else is there, every lock is free, and Telegram takes every message.
abbrev pub calm : Env → ℕ → Env
calm env id = record env {
  failure = λ n. none;
  commit = λ n. applied;
  others = λ n d. d;
  lock_free = λ n. true;
  telegram = λ n. delivered id;
  context_error = λ n. none;
}

-- A query finds a row if there is one.
find_one :
    {A : Type 0} (p : A → Bool) (xs : List A) (x : A)
    → Elem x xs
    → p x ≡ true
    → (y : A) × (find p xs ≡ some y)
find_one p [] x e h = absurd e
find_one p (z ∷ xs) x (inl e) h = (z, first (p z) (subst (λ y. p y ≡ true) e h))
  where
    first : (b : Bool) → b ≡ true → (if b then some z else find p xs) ≡ some z
    first true i = refl
    first false i = absurd (ground (arith, i))
find_one {A} p (z ∷ xs) x (inr e) h = either (p z) (find_one p xs x e h)
  where
    either :
        (b : Bool)
        → (y : A) × (find p xs ≡ some y)
        → (y : A) × ((if b then some z else find p xs) ≡ some y)
    either true rest = (z, refl)
    either false rest = rest

module _ (now : ℕ) (jobs : List NotificationRow) where
  abbrev waiting : List NotificationRow
  waiting = order_by scheduled_before (select (claimable now) jobs)

  -- The first candidate, of the rows that can be claimed.
  record First : Type 0 where
    row : NotificationRow
    rest : List NotificationRow
    first : waiting ≡ row ∷ rest
    can_claim : claimable now row ≡ true
    stands : Elem row jobs

  first_of :
      (l : List NotificationRow)
      → waiting ≡ l
      → All (λ x. (claimable now x ≡ true) × Elem x jobs) l
      → (r : NotificationRow) → Elem r l
      → First
  first_of [] e h r i = absurd i
  first_of (x ∷ l) e h r i = record {
    row = x;
    rest = l;
    first = e;
    can_claim = h.0.0;
    stands = h.0.1;
  }

  first_waiting : (r : NotificationRow) → Elem r jobs → claimable now r ≡ true → First
  first_waiting r e h =
      first_of waiting refl
        (All-order_by scheduled_before _ _ (All-select-Elem (claimable now) jobs)) r
        (Elem-order_by scheduled_before _ r (Elem-select (claimable now) jobs r h e))

module _ (env : Env) (id : ℕ) (w : World) where
  abbrev now : ℕ
  now = env.clock w.calls

  pub record Progress : Type 0 where
    pub row_id : ℕ
    pub row : NotificationRow
    pub token : ℕ
    pub same_id : row.id ≡ row_id
    pub can_claim : claimable now row ≡ true
    pub found : find (is_candidate row_id now) w.db.notification_jobs ≡ some row
    pub job_returned :
        (claim_pending_notification_job (calm env id) w).0 ≡ ok (some (job_of token row))
    pub db_claimed :
        (claim_pending_notification_job (calm env id) w).1.db ≡ (claim_row row_id token now w.db).1
    pub same_held : (claim_pending_notification_job (calm env id) w).1.held ≡ w.held
    pub same_outbox : (claim_pending_notification_job (calm env id) w).1.outbox ≡ w.outbox
    pub later_calls : (claim_pending_notification_job (calm env id) w).1.calls ≡ w.calls + 5

  -- If nothing fails, no other session commits and no chat is locked, then work that waits is taken: as
  -- long as there is a row that can be claimed at the time of the call, the claim returns a job. It is
  -- the job of a row that could be claimed, and the database is changed by the claim of this row alone,
  -- under the fresh token; no message is sent and no lock is taken for the session.
  pub claim_pending_notification_job-Progress :
      (r : NotificationRow) → Elem r w.db.notification_jobs → claimable now r ≡ true → Progress
  unfolding claim_pending_notification_job claim_pending claim_first commit_or claim_row continue
      observe_error answered confirmed
  claim_pending_notification_job-Progress r e h = record {
    row_id = x.id;
    row = g.0;
    token = env.uuid (suc (suc (suc w.calls)));
    same_id = ground (arith, holds);
    can_claim = and_claimable x.id now g.0 holds;
    found = g.1;
    job_returned = rw f.first (rw g.1 refl);
    db_claimed = rw f.first (rw g.1 refl);
    same_held = rw f.first (rw g.1 refl);
    same_outbox = rw f.first (rw g.1 refl);
    later_calls = rw f.first (rw g.1 (omega arith));
  }
    where
      f : First now w.db.notification_jobs
      f = first_waiting now w.db.notification_jobs r e h

      x : NotificationRow
      x = f.row

      g : (y : NotificationRow) × (find (is_candidate x.id now) w.db.notification_jobs ≡ some y)
      g =
          find_one (is_candidate x.id now) w.db.notification_jobs x f.stands
            (ground (arith, f.can_claim))

      holds : is_candidate x.id now g.0 ≡ true
      holds = find_holds (is_candidate x.id now) w.db.notification_jobs g.0 g.1
