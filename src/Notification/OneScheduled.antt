-- ===== src/Notification/OneScheduled.antt =====
-- A chat has at most one open scheduled job.
use cryptopulse_telegram_bot.Prelude.{
  ℕ, suc, ◌+◌, ◌≤◌, ◌≡◌, refl, subst, inl, inr, arith, Bool, true, false, some, List, [], ◌∷◌, map,
  ℤ, eqb_ℤ, eqb_ℤ_iff, any, All, length, All-take, All-map,
}
use cryptopulse_telegram_bot.Bytes.{Bytes}
use cryptopulse_telegram_bot.Workers.{cron_batch_limit}
use cryptopulse_telegram_bot.Schema.{SubscriberRow, Db}
use cryptopulse_telegram_bot.Table.{affected, find}
use cryptopulse_telegram_bot.Table.Laws.{
  affected-find, affected_last, affected-take_le, affected-select_le, affected-order_by,
  any-affected, find_All, All-order_by, All-select-Elem,
}
use cryptopulse_telegram_bot.App.{App}
use cryptopulse_telegram_bot.Session.{
  Env, World, Result, ok, err, continue, bump, observed, commit, counting, db_operations_total,
  ◌>>◌,
}
use cryptopulse_telegram_bot.Session.Rules.{answered_then, confirmed_then, exec_then}
use cryptopulse_telegram_bot.Alert.Rows.{add_job, fresh_id}
use cryptopulse_telegram_bot.Handlers.Subscribers.{of_chat, is_open_scheduled}
use cryptopulse_telegram_bot.Notification.Create.{
  is_due, Due, due_subscribers, due_of, claim_due, scheduled_job, scheduled_text, insert_job,
  insert_jobs, insert_and_commit, create_cron_notification_jobs,
}

abbrev pub OneScheduled : Db → Type 0
OneScheduled db = (chat : ℤ) → affected (is_open_scheduled chat) db.notification_jobs ≤ 1

-- The primary key of subscribers
abbrev pub OneSubscriber : Db → Type 0
OneSubscriber db = (chat : ℤ) → affected (of_chat chat) db.subscribers ≤ 1

-- The jobs of a chat that are open and those that are still to be inserted.
abbrev Fits : List Due → Db → Type 0
Fits due db =
    (chat : ℤ)
    → affected (is_open_scheduled chat) db.notification_jobs + affected (λ d. eqb_ℤ d.0 chat) due
      ≤ 1

due_rows :
    (chat : ℤ) (rows : List SubscriberRow)
    → affected (λ d. eqb_ℤ d.0 chat) (map due_of rows) ≡ affected (of_chat chat) rows
due_rows chat [] = refl
due_rows chat (s ∷ rows) = ground (arith, due_rows chat rows)

due-is_due :
    (locked : ℤ → Bool) (now : ℕ) (db : Db)
    → All (λ s. is_due locked now db s ≡ true) (due_subscribers locked now db)
due-is_due locked now db =
    All-take _ cron_batch_limit _
      (All-order_by _ _ _ (All-map _ _ _ (λ s h. h.0) (All-select-Elem _ db.subscribers)))

claim_due_Fits :
    (locked : ℤ → Bool) (now : ℕ) (db : Db)
    → OneScheduled db
    → OneSubscriber db
    → Fits (map due_of (due_subscribers locked now db)) db
claim_due_Fits locked now db one key chat =
    elim (affected-find (of_chat chat) (due_subscribers locked now db)) [
      | inl h ↦ omega (arith, one chat, h.0, due_rows chat (due_subscribers locked now db))
      | inr (s, found, same) ↦ omega (
        arith,
        key chat,
        none_open s found same,
        due_rows chat (due_subscribers locked now db),
        affected-take_le (of_chat chat) cron_batch_limit _,
        affected-order_by (of_chat chat) _ _,
        affected-select_le (of_chat chat) _ db.subscribers,
      )
    ]
  where
    not_open :
        (s : SubscriberRow)
        → is_due locked now db s ≡ true
        → any (is_open_scheduled s.chat_id) db.notification_jobs ≡ false
    not_open s h = ground (arith, h)

    none_open :
        (s : SubscriberRow)
        → find (of_chat chat) (due_subscribers locked now db) ≡ some s
        → of_chat chat s ≡ true
        → affected (is_open_scheduled chat) db.notification_jobs ≡ 0
    none_open s found same =
        subst (λ c. affected (is_open_scheduled c) db.notification_jobs ≡ 0)
          ((eqb_ℤ_iff s.chat_id chat).0 same)
          (any-affected (is_open_scheduled s.chat_id) db.notification_jobs
            (not_open s (find_All (of_chat chat) _ _ s (due-is_due locked now db) found)))

insert_Fits :
    (d : Due) (due : List Due) (message : Bytes) (at now : ℕ) (db : Db)
    → Fits (d ∷ due) db
    → Fits due (add_job (scheduled_job d message at) now db).1
unfolding add_job
insert_Fits (chat', lang) due message at now db fits chat = ground (
  arith,
  fits chat,
  affected_last (is_open_scheduled chat) db.notification_jobs
      (scheduled_job (chat', lang) message at (fresh_id db.job_ids) now),
)

Fits-OneScheduled : (due : List Due) (db : Db) → Fits due db → OneScheduled db
Fits-OneScheduled due db fits chat = omega (arith, fits chat)

abbrev BothScheduled : {A : Type 0} → Result A × World → Type 0
BothScheduled r = OneScheduled r.1.db × OneScheduled r.1.view

module _ (env : Env) (app : App) where
  insert_jobs_lem :
      (at : ℕ) (due : List Due) (w : World)
      → OneScheduled w.db
      → Fits due w.view
      → BothScheduled (insert_jobs env app at due (record w { writing = true }))
  unfolding insert_jobs insert_job
  insert_jobs_lem at [] w one fits = (one, Fits-OneScheduled [] w.view fits)
  insert_jobs_lem at (d ∷ due) w one fits =
      exec_then env BothScheduled _ "create_notification_jobs" (add_job _)
        (record w { writing = true }) (λ m. (one, Fits-OneScheduled (d ∷ due) w.view fits))
        (insert_jobs_lem at due
          (record (bump w) {
            view =
                (add_job (scheduled_job d (scheduled_text app d.1 at (env.prices w.calls d.1)) at)
                  w.tx_now w.view).1;
          })
          one (insert_Fits d due _ at w.tx_now w.view fits))

  insert_and_commit_lem :
      (at : ℕ) (due : List Due) (w : World)
      → OneScheduled w.db
      → Fits due w.view
      → OneScheduled (insert_and_commit env app (due, at) (record w { writing = true })).1.db
  unfolding insert_and_commit continue
  insert_and_commit_lem at due w one fits =
      committed (insert_jobs env app at due (record w { writing = true }))
        (insert_jobs_lem at due w one fits)
    where
      committed :
          (r : Result (Unit {0}) × World)
          → BothScheduled r
          → OneScheduled
              (continue
                (λ _.
                  observed "create_notification_jobs" (commit env)
                  >> counting
                      (db_operations_total "create_notification_jobs" "success")
                      (length due))
                r).1.db
      committed (err e, v) both = both.0
      committed (ok _, v) both =
          confirmed_then (λ r. OneScheduled r.1.db) "create_notification_jobs" _
            (env.commit v.calls) (bump v) tt (record (bump v) { db = v.view }) (λ m. both.0)
            (λ m. both.1) both.1

  -- If every chat has at most one open scheduled job, and the other sessions keep this and that a chat
  -- has one row of subscribers, then it has at most one after createCronNotificationJobs, whatever the
  -- outcome: a subscriber who still waits for a notification does not get another.
  pub create_cron_notification_jobs-OneScheduled :
      ((n : ℕ) (d : Db) → OneScheduled d → OneScheduled (env.others n d))
      → ((n : ℕ) (d : Db) → OneSubscriber d → OneSubscriber (env.others n d))
      → (w : World) → OneScheduled w.db
      → OneSubscriber w.db
      → OneScheduled (create_cron_notification_jobs env app w).1.db
  unfolding create_cron_notification_jobs claim_due
  create_cron_notification_jobs-OneScheduled keeps keys w one key =
      answered_then (λ r. OneScheduled r.1.db) "create_notification_jobs" _ (env.failure w.calls)
        (bump w) tt (record (bump w) { view = w.db; tx_now = env.clock w.calls; writing = false })
        (λ m. one)
        (exec_then env (λ r. OneScheduled r.1.db) (insert_and_commit env app)
          "create_notification_jobs" (claim_due (env.subscriber_locked (suc w.calls)))
          (record (bump w) { view = w.db; tx_now = env.clock w.calls; writing = false })
          (λ m. keeps (suc w.calls) w.db one)
          (insert_and_commit_lem (env.clock w.calls) _
            (record (bump (bump w)) {
              db = env.others (suc w.calls) w.db;
              view =
                  (claim_due (env.subscriber_locked (suc w.calls)) (env.clock w.calls)
                    (env.others (suc w.calls) w.db)).1;
              tx_now = env.clock w.calls;
            })
            (keeps (suc w.calls) w.db one)
            (claim_due_Fits (env.subscriber_locked (suc w.calls)) (env.clock w.calls)
              (env.others (suc w.calls) w.db) (keeps (suc w.calls) w.db one)
              (keys (suc w.calls) w.db key))))
