-- ===== src/Alert/Fires.antt =====
-- What triggerPriceAlert changes: an alert leaves the active state in the commit that adds its job.
use cryptopulse_telegram_bot.Prelude.{
  ℕ, suc, ◌≡◌, ◌≢◌, ◌⊎◌, refl, sym, ap, subst, ◌∙◌, inl, inr, arith, Bool, true, false, Option,
  none, some, List, [], ◌∷◌, ◌++◌, if◌then◌else◌, Elem, ℤ, pos,
}
use cryptopulse_telegram_bot.Bytes.{Bytes}
use cryptopulse_telegram_bot.Schema.{
  AlertRow, AlertStatus, NotificationRow, JobStatus, price_alert, Db,
}
use cryptopulse_telegram_bot.Table.{update, find}
use cryptopulse_telegram_bot.Table.Laws.{find_holds, Elem-find}
use cryptopulse_telegram_bot.Telegram.{alert_text}
use cryptopulse_telegram_bot.App.{App}
use cryptopulse_telegram_bot.Session.{Env, World, bump, Result, ok, err}
use cryptopulse_telegram_bot.Session.Rules.{answered_continue, confirmed_continue, exec_continue}
use cryptopulse_telegram_bot.Alert.Rows.{
  is_active, is_triggered_by, triggered_alert, returned_alert, trigger_alert, alert_job, add_job,
  delete_crossing, fresh_id, Crossing,
}
use cryptopulse_telegram_bot.Alert.Crossings.{notify_triggered, trigger_if, trigger_price_alert}

-- An active alert of the crossing has become a triggered one, at the price of the crossing, and exactly
-- one job has been added, which is to tell the alert's chat.
pub record Fires (c : Crossing) (before after : Db) : Type 0 where
  pub alert : AlertRow
  pub stood : Elem alert before.price_alerts
  pub same_id : alert.id ≡ c.alert_id
  pub was_active : alert.status ≡ AlertStatus.active
  pub changed : AlertRow
  pub stands : Elem changed after.price_alerts
  pub same_alert : changed.id ≡ c.alert_id
  pub is_triggered : changed.status ≡ AlertStatus.triggered
  pub at_price : changed.trigger_price ≡ some c.price
  pub none_active :
      (row : AlertRow)
      → Elem row after.price_alerts
      → row.id ≡ c.alert_id
      → row.status ≢ AlertStatus.active
  pub job : NotificationRow
  pub job_added : after.notification_jobs ≡ before.notification_jobs ++ job ∷ []
  pub of_alert : job.price_alert_id ≡ some c.alert_id
  pub to_chat : job.chat_id ≡ alert.chat_id
  pub of_kind : job.kind ≡ price_alert
  pub is_waiting : job.status ≡ JobStatus.pending

active_status : (s : AlertStatus) → is_active s ≡ true → s ≡ AlertStatus.active
active_status AlertStatus.active h = refl
active_status AlertStatus.triggered h = absurd (ground (arith, h))
active_status AlertStatus.canceled h = absurd (ground (arith, h))

updated_Elem :
    {A : Type 0} (p : A → Bool) (f : A → A) (xs : List A) (x : A)
    → Elem x xs
    → p x ≡ true
    → Elem (f x) (update p f xs)
updated_Elem p f [] x i h = absurd i
updated_Elem p f (y ∷ xs) x (inr i) h = inr (updated_Elem p f xs x i h)
updated_Elem p f (y ∷ xs) x (inl e) h =
    subst (λ z. Elem (f x) ((if p z then f z else z) ∷ update p f xs)) e (inl (sym (rw h refl)))

module _ (id price at now : ℕ) where
  none_left :
      (alerts : List AlertRow) (row : AlertRow)
      → Elem row (update (is_triggered_by id) (triggered_alert price at now) alerts)
      → row.id ≡ id
      → row.status ≢ AlertStatus.active
  none_left [] row i e h = absurd i
  none_left (a ∷ alerts) row (inr i) e h = none_left alerts row i e h
  none_left (a ∷ alerts) row (inl s) e h = by_row (is_triggered_by id a) refl s
    where
      by_row :
          (b : Bool)
          → is_triggered_by id a ≡ b
          → row ≡ (if b then triggered_alert price at now a else a)
          → ⊥
      by_row true t s = triggered_active (sym (ap (λ r. r.status) s) ∙ h)
        where
          triggered_active : AlertStatus.triggered ≡ AlertStatus.active → ⊥
          triggered_active k = cc
      by_row false t s =
          ground
            (arith, t, sym (ap (λ r. r.id) s) ∙ e, ap is_active (sym (ap (λ r. r.status) s) ∙ h))

abbrev id_of : Option AlertRow → ℕ
id_of none = 0
id_of (some a) = a.id

abbrev chat_of : Option AlertRow → ℤ
chat_of none = pos 0
chat_of (some a) = a.chat_id

fired :
    (c : Crossing) (before : Db) (now : ℕ) (o : Option AlertRow) (a : AlertRow) (words : Bytes)
    (at now' : ℕ)
    → o ≡ find (is_triggered_by c.alert_id) before.price_alerts
    → returned_alert before o ≡ some a
    → Fires c before
        (delete_crossing a.id now'
          (add_job
            (alert_job a words at)
            now'
            (trigger_alert c.alert_id c.price c.observed_at now before).1).1).1
unfolding trigger_alert add_job delete_crossing
fired c before now none a words at now' e r = absurd (ground (arith, r))
fired c before now (some b) a words at now' e r = record {
  alert = b;
  stood = Elem-find _ before.price_alerts b (sym e);
  same_id = same;
  was_active = active_status b.status (ground (arith, holds));
  changed = triggered_alert c.price c.observed_at now b;
  stands =
      updated_Elem (is_triggered_by c.alert_id) (triggered_alert c.price c.observed_at now)
        before.price_alerts b (Elem-find _ before.price_alerts b (sym e)) holds;
  same_alert = same;
  is_triggered = refl;
  at_price = refl;
  none_active = none_left c.alert_id c.price c.observed_at now before.price_alerts;
  job = alert_job a words at (fresh_id before.job_ids) now';
  job_added = refl;
  of_alert = ap some (sym (ap id_of r) ∙ same);
  to_chat = sym (ap chat_of r);
  of_kind = refl;
  is_waiting = refl;
}
  where
    holds : is_triggered_by c.alert_id b ≡ true
    holds = find_holds (is_triggered_by c.alert_id) before.price_alerts b (sym e)

    same : b.id ≡ c.alert_id
    same = ground (arith, holds)

-- What a trigger answers and leaves: the database as it was when the trigger began or at its UPDATE, and
-- then it does not answer that the alert was triggered; or the database of the UPDATE with all changes,
-- and then it does not answer that nothing was triggered.
pub data TriggerOutcome (c : Crossing) (began before : Db) (r : Result Bool × World) : Type 0 where
  kept : (r.1.db ≡ began) ⊎ (r.1.db ≡ before) → r.0 ≢ ok true → TriggerOutcome c began before r
  fires : Fires c before r.1.db → r.0 ≢ ok false → TriggerOutcome c began before r

module _ (env : Env) (app : App) (c : Crossing) where
  failed : {e : _} → err e ≢ ok true
  failed h = cc

  fired_by :
      (before : Db) (now : ℕ) (a : AlertRow) (words : Bytes) (at now' : ℕ)
      → some a ≡ (trigger_alert c.alert_id c.price c.observed_at now before).0
      → Fires c before
          (delete_crossing a.id now'
            (add_job
              (alert_job a words at)
              now'
              (trigger_alert c.alert_id c.price c.observed_at now before).1).1).1
  unfolding trigger_alert
  fired_by before now a words at now' e =
      fired c before now (find (is_triggered_by c.alert_id) before.price_alerts) a words at now'
        refl (sym e)

  notified :
      (began before : Db) (now : ℕ) (o : Option AlertRow) (w : World)
      → w.db ≡ before
      → w.view ≡ (trigger_alert c.alert_id c.price c.observed_at now before).1
      → o ≡ (trigger_alert c.alert_id c.price c.observed_at now before).0
      → TriggerOutcome c began before (notify_triggered env app c o (record w { writing = true }))
  unfolding notify_triggered
  notified began before now none w d view e = kept (inr d) (λ h. cc)
  notified began before now (some a) w d view e =
      exec_continue env Goal _ (add_job _) (record w { writing = true })
        (λ m. kept (inr d) (λ h. cc))
        (exec_continue env Goal _ (delete_crossing a.id) _ (λ m. kept (inr d) (λ h. cc))
          (confirmed_continue Goal _ _ _ tt _ (λ m. kept (inr d) (λ h. cc))
            (λ m. fires done (λ h. cc)) (fires done (λ h. cc))))
    where
      Goal : Result Bool × World → Type 0
      Goal r = TriggerOutcome c began before r

      words : Bytes
      words =
          app.triggered_text (alert_text app.alert_messages a.language_code "triggered_message") a
            c.price c.observed_at

      done :
          Fires c before
            (delete_crossing a.id w.tx_now
              (add_job (alert_job a words c.observed_at) w.tx_now w.view).1).1
      done =
          subst
            (λ x.
              Fires c before
                (delete_crossing a.id w.tx_now
                  (add_job (alert_job a words c.observed_at) w.tx_now x).1).1)
            (sym view) (fired_by before now a words c.observed_at w.tx_now e)

  triggered :
      (b : Bool) (w : World)
      → TriggerOutcome c w.db
          (env.others w.calls w.db)
          (trigger_if env app c b (record w { writing = false }))
  unfolding trigger_if
  triggered false w = kept (inl refl) (λ h. cc)
  triggered true w =
      exec_continue env (λ r. TriggerOutcome c w.db (env.others w.calls w.db) r) _ _
        (record w { writing = false }) (λ m. kept (inr refl) (λ h. cc))
        (notified w.db (env.others w.calls w.db) w.tx_now _
          (record (bump w) {
            db = env.others w.calls w.db;
            view =
                (trigger_alert c.alert_id c.price c.observed_at w.tx_now
                  (env.others w.calls w.db)).1;
          })
          refl refl refl)

  pub trigger_price_alert-TriggerOutcome :
      (w : World)
      → TriggerOutcome c w.db
          (env.others (suc (suc w.calls)) w.db)
          (trigger_price_alert env app c w)
  unfolding trigger_price_alert
  trigger_price_alert-TriggerOutcome w =
      answered_continue Goal _ (env.failure w.calls) _ tt _ (λ m. kept (inl refl) (λ h. cc))
        (answered_continue Goal _ (env.failure (suc w.calls)) _ (env.lock_free (suc w.calls)) _
          (λ m. kept (inl refl) (λ h. cc))
          (triggered (env.lock_free (suc w.calls))
            (record (bump (bump w)) { view = w.db; tx_now = env.clock w.calls })))
    where
      Goal : Result Bool × World → Type 0
      Goal r = TriggerOutcome c w.db (env.others (suc (suc w.calls)) w.db) r
