-- ===== src/Retention/Pending.antt =====
-- The cleaner never deletes work that waits.
use cryptopulse_telegram_bot.Prelude.{
  ℕ, ◌≡◌, sym, subst, inl, inr, arith, Bool, true, false, not, List, [], ◌∷◌, Elem, if◌then◌else◌,
}
use cryptopulse_telegram_bot.Schema.{
  Db, NotificationRow, UpdateRow, UpdateStatus, ReplyRow, is_open,
}
use cryptopulse_telegram_bot.Table.{delete}
use cryptopulse_telegram_bot.Session.{Env, World}
use cryptopulse_telegram_bot.Retention.{
  History, delete_expired, is_listed, expired, notification_job_history, telegram_update_history,
  telegram_reply_history,
}
use cryptopulse_telegram_bot.Retention.Selection.{HasKey, delete_expired-Elem}
use cryptopulse_telegram_bot.Retention.Cleaner.{start_notification_retention_cleaner, cleaner_keeps}

Elem-delete_sub :
    {A : Type 0} (p : A → Bool) (xs : List A) (x : A) → Elem x (delete p xs) → Elem x xs
Elem-delete_sub p [] x e = e
Elem-delete_sub p (y ∷ xs) x e = placed (p y) (Elem-delete_sub p xs x) e
  where
    placed :
        (b : Bool)
        → (Elem x (delete p xs) → Elem x xs)
        → Elem x (if not b then y ∷ delete p xs else delete p xs)
        → Elem x (y ∷ xs)
    placed true rest e = inr (rest e)
    placed false rest (inl e) = inl e
    placed false rest (inr e) = inr (rest e)

module _ {A : Type 0} (h : History A) (row : A) where
  -- The keys of the table are unique, and the row stands in it.
  abbrev pub Kept : Db → Type 0
  Kept d = HasKey h (h.table d) × Elem row (h.table d)

  -- A row that is never expired survives the batches of its own table.
  delete_expired-Kept :
      ((now : ℕ) (d : Db) → h.has_expired now d row ≡ false)
      → (now : ℕ) (d : Db) → Kept d
      → Kept (delete_expired h now d).1
  unfolding delete_expired
  delete_expired-Kept lives now d (unique, e) = (
    subst (HasKey h) (sym (h.removed (is_listed h (expired h now d)) d))
        (λ x y i j same. unique x y (Elem-delete_sub _ _ x i) (Elem-delete_sub _ _ y j) same),
    delete_expired-Elem h now d row unique e (lives now d),
  )

-- The update has not been processed, and has not failed.
abbrev pub is_unprocessed : UpdateStatus → Bool
is_unprocessed UpdateStatus.pending = true
is_unprocessed UpdateStatus.processing = true
is_unprocessed UpdateStatus.processed = false
is_unprocessed UpdateStatus.failed = false

job_lives :
    (job : NotificationRow)
    → is_open job.status ≡ true
    → (now : ℕ) (d : Db) → notification_job_history.has_expired now d job ≡ false
job_lives job o now d = ground (arith, o)

update_lives :
    (update : UpdateRow)
    → is_unprocessed update.status ≡ true
    → (now : ℕ) (d : Db) → telegram_update_history.has_expired now d update ≡ false
update_lives update o now d = ground (arith, o)

reply_lives :
    (reply : ReplyRow)
    → is_open reply.status ≡ true
    → (now : ℕ) (d : Db) → telegram_reply_history.has_expired now d reply ≡ false
reply_lives reply o now d = ground (arith, o)

module _ (job : NotificationRow) (update : UpdateRow) (reply : ReplyRow) where
  pub record AllKept (d : Db) : Type 0 where
    pub job_kept : Kept notification_job_history job d
    pub update_kept : Kept telegram_update_history update d
    pub reply_kept : Kept telegram_reply_history reply d

  -- Work that waits is never cleaned away. An open notification, an update that is not processed and
  -- an open reply, if they stand in their tables and other sessions leave them and the primary keys
  -- there, still stand there unchanged after any number of rounds of the cleaner, whatever the clock
  -- says and whatever fails.
  pub cleaner-AllKept :
      (env : Env) (fuel rounds : ℕ) (w : World)
      → is_open job.status ≡ true
      → is_unprocessed update.status ≡ true
      → is_open reply.status ≡ true
      → ((n : ℕ) (d : Db) → AllKept d → AllKept (env.others n d))
      → AllKept w.db
      → AllKept (start_notification_retention_cleaner env fuel rounds w).1.db
  unfolding delete_expired
  cleaner-AllKept env fuel rounds w open_job unprocessed open_reply others kept =
      cleaner_keeps env AllKept others fuel
        (λ now d k. record {
          job_kept =
              delete_expired-Kept notification_job_history job (job_lives job open_job) now d
                k.job_kept;
          update_kept = k.update_kept;
          reply_kept = k.reply_kept;
        })
        (λ now d k. record {
          job_kept = k.job_kept;
          update_kept =
              delete_expired-Kept telegram_update_history update (update_lives update unprocessed)
                now d k.update_kept;
          reply_kept = k.reply_kept;
        })
        (λ now d k. record {
          job_kept = k.job_kept;
          update_kept = k.update_kept;
          reply_kept =
              delete_expired-Kept telegram_reply_history reply (reply_lives reply open_reply) now d
                k.reply_kept;
        })
        (λ now d k. record {
          job_kept = k.job_kept;
          update_kept = k.update_kept;
          reply_kept = k.reply_kept;
        })
        rounds w kept
