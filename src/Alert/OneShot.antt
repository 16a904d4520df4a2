-- ===== src/Alert/OneShot.antt =====
-- An alert fires once: it is active, or it has one notification, never both.
use cryptopulse_telegram_bot.Prelude.{
  ℕ, suc, ◌+◌, ◌≤◌, ◌≡◌, refl, sym, ap, subst, inl, inr, arith, Bool, true, false, Option, none,
  some, List, [], ◌∷◌, ◌++◌, ◌==◌, is_some_eq, if◌then◌else◌, Bool-cases,
}
use cryptopulse_telegram_bot.Bytes.{Bytes}
use cryptopulse_telegram_bot.Schema.{AlertRow, NotificationRow, Db}
use cryptopulse_telegram_bot.Table.{update, affected, find}
use cryptopulse_telegram_bot.Table.Laws.{find_holds, affected_last, found_affected}
use cryptopulse_telegram_bot.Telegram.{alert_text}
use cryptopulse_telegram_bot.App.{App}
use cryptopulse_telegram_bot.Session.{Env, World, bump, Result}
use cryptopulse_telegram_bot.Session.Rules.{answered_continue, confirmed_continue, exec_continue}
use cryptopulse_telegram_bot.Alert.Rows.{
  is_active, is_triggered_by, triggered_alert, returned_alert, trigger_alert, alert_job, add_job,
  delete_crossing, Crossing,
}
use cryptopulse_telegram_bot.Alert.Fires.{TriggerOutcome, trigger_price_alert-TriggerOutcome}
use cryptopulse_telegram_bot.Alert.Crossings.{notify_triggered, trigger_if, trigger_price_alert}

abbrev pub of_alert : ℕ → NotificationRow → Bool
of_alert id j = is_some_eq j.price_alert_id id

-- How often an alert can still fire or has fired.
abbrev pub firings : ℕ → Db → ℕ
firings id db =
    affected (is_triggered_by id) db.price_alerts + affected (of_alert id) db.notification_jobs

abbrev pub OneShot : Db → Type 0
OneShot db = (id : ℕ) → firings id db ≤ 1

active_triggered :
    (id other price at now : ℕ) (alerts : List AlertRow)
    → affected
          (is_triggered_by other)
          (update (is_triggered_by id) (triggered_alert price at now) alerts)
        + (if id == other then affected (is_triggered_by other) alerts else 0)
      ≡ affected (is_triggered_by other) alerts
active_triggered id other price at now [] = ground arith
active_triggered id other price at now (a ∷ alerts) = elim (Bool-cases (is_active a.status)) [
  | inl e ↦ ground (arith, e, active_triggered id other price at now alerts)
  | inr e ↦ ground (arith, e, active_triggered id other price at now alerts)
]

found_id :
    (id : ℕ) (alerts : List AlertRow) (a : AlertRow)
    → find (is_triggered_by id) alerts ≡ some a
    → a.id ≡ id
found_id id alerts a h = ground (arith, find_holds (is_triggered_by id) alerts a h)

abbrev id_of : Option AlertRow → ℕ
id_of none = 0
id_of (some a) = a.id

-- The three changes of a trigger together keep it that an alert fires once.
fired :
    (c : Crossing) (db : Db) (o : Option AlertRow) (now : ℕ)
    → o ≡ find (is_triggered_by c.alert_id) db.price_alerts
    → (a : AlertRow) → returned_alert db o ≡ some a
    → OneShot db
    → (text : Bytes) (at job now' : ℕ) (id : ℕ)
    → affected (is_triggered_by id) (
          update
            (is_triggered_by c.alert_id)
            (triggered_alert c.price c.observed_at now)
            db.price_alerts)
        + affected (of_alert id) (db.notification_jobs ++ alert_job a text at job now' ∷ [])
      ≤ 1
fired c db none now e a r one text at job now' id = ground arith
fired c db (some b) now e a r one text at job now' id = ground (
  arith,
  ap id_of r,
  active_triggered c.alert_id id c.price c.observed_at now db.price_alerts,
  affected_last (of_alert id) db.notification_jobs (alert_job a text at job now'),
  found_affected (is_triggered_by c.alert_id) db.price_alerts b (sym e),
  found_id c.alert_id db.price_alerts b (sym e),
  one id,
)

fired_OneShot :
    (c : Crossing) (db : Db) (now : ℕ) (a : AlertRow) (text : Bytes) (at now' : ℕ) (view : Db)
    → view ≡ (trigger_alert c.alert_id c.price c.observed_at now db).1
    → some a ≡ (trigger_alert c.alert_id c.price c.observed_at now db).0
    → OneShot db
    → OneShot (delete_crossing a.id now' (add_job (alert_job a text at) now' view).1).1
unfolding trigger_alert add_job delete_crossing
fired_OneShot c db now a text at now' view v e one id =
    subst (λ d. OneShot (delete_crossing a.id now' (add_job (alert_job a text at) now' d).1).1)
      (sym v)
      (fired c db (find (is_triggered_by c.alert_id) db.price_alerts) now refl a (sym e) one text at
        _ now')
      id

-- A failure or a lost candidate leaves the committed database; only the last commit writes.
module _ (env : Env) (app : App) (c : Crossing) where
  notified :
      (db : Db) (now : ℕ) (o : Option AlertRow) (w : World)
      → OneShot w.db
      → w.view ≡ (trigger_alert c.alert_id c.price c.observed_at now db).1
      → o ≡ (trigger_alert c.alert_id c.price c.observed_at now db).0
      → OneShot db
      → OneShot (notify_triggered env app c o (record w { writing = true })).1.db
  unfolding notify_triggered
  notified db now none w committed view e one = committed
  notified db now (some a) w committed view e one =
      exec_continue env Kept _ (add_job _) (record w { writing = true }) (λ m. committed)
        (exec_continue env Kept _ (delete_crossing a.id) _ (λ m. committed)
          (confirmed_continue Kept _ _ _ tt _ (λ m. committed) (λ m. done) done))
    where
      Kept : Result Bool × World → Type 0
      Kept r = OneShot r.1.db

      done :
          OneShot
            (delete_crossing a.id w.tx_now
              (add_job
                (alert_job a
                  (app.triggered_text
                    (alert_text app.alert_messages a.language_code "triggered_message")
                    a
                    c.price
                    c.observed_at)
                  c.observed_at)
                w.tx_now
                w.view).1).1
      done = fired_OneShot c db now a _ c.observed_at w.tx_now w.view view e one

  trigger_if_lem :
      (b : Bool) (w : World)
      → ((n : ℕ) (d : Db) → OneShot d → OneShot (env.others n d))
      → OneShot w.db
      → OneShot (trigger_if env app c b (record w { writing = false })).1.db
  unfolding trigger_if
  trigger_if_lem false w others one = one
  trigger_if_lem true w others one =
      exec_continue env (λ r. OneShot r.1.db) _ _ (record w { writing = false })
        (λ m. others w.calls w.db one)
        (notified (env.others w.calls w.db) w.tx_now _
          (record (bump w) {
            db = env.others w.calls w.db;
            view =
                (trigger_alert c.alert_id c.price c.observed_at w.tx_now
                  (env.others w.calls w.db)).1;
          })
          (others w.calls w.db one) refl refl (others w.calls w.db one))

  kept_OneShot :
      ((n : ℕ) (d : Db) → OneShot d → OneShot (env.others n d))
      → (w : World) → OneShot w.db
      → OneShot (trigger_price_alert env app c w).1.db
  unfolding trigger_price_alert
  kept_OneShot others w one =
      answered_continue Kept _ (env.failure w.calls) _ tt _ (λ m. one)
        (answered_continue Kept _ (env.failure (suc w.calls)) _ (env.lock_free (suc w.calls)) _
          (λ m. one)
          (trigger_if_lem (env.lock_free (suc w.calls))
            (record (bump (bump w)) { view = w.db; tx_now = env.clock w.calls }) others one))
    where
      Kept : Result Bool × World → Type 0
      Kept r = OneShot r.1.db

  -- OneShot says that, for every alert, the active rows with its id and the notification jobs of the
  -- alert are at most one together. If that holds of the database, and if the other sessions keep
  -- it, then it holds after triggerPriceAlert on every outcome. And the database is then either as it was
  -- when the transaction began or at its third call, and the answer is not that the alert was triggered; or
  -- one commit on that of the third call has turned the crossing's alert from active into triggered at the
  -- price of the crossing, left no row of the alert active, and added exactly one job, a waiting one that
  -- tells the alert's chat about this alert, and the answer is not that nothing was triggered.
  pub trigger_price_alert-OneShot :
      ((n : ℕ) (d : Db) → OneShot d → OneShot (env.others n d))
      → (w : World) → OneShot w.db
      → OneShot (trigger_price_alert env app c w).1.db
        × TriggerOutcome c w.db
            (env.others (suc (suc w.calls)) w.db)
            (trigger_price_alert env app c w)
  trigger_price_alert-OneShot others w one =
      (kept_OneShot others w one, trigger_price_alert-TriggerOutcome env app c w)
