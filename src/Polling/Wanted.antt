-- ===== src/Polling/Wanted.antt =====
-- The processing of a wanted notification in an environment where nothing fails.
use cryptopulse_telegram_bot.Prelude.{
  ℕ, suc, ◌≡◌, refl, sym, subst, ap, ◌∙◌, inl, inr, arith, Bool, true, false, not, Option, none,
  some, List, ◌∷◌, ℤ, if◌then◌else◌, Bool-cases,
}
use cryptopulse_telegram_bot.Schema.{SubscriberRow, Db, is_price_alert}
use cryptopulse_telegram_bot.App.{App}
use cryptopulse_telegram_bot.Session.{
  Env, World, Result, Outgoing, ok, continue, handle, unless_done, observe_error, answered,
}
use cryptopulse_telegram_bot.Notification.Jobs.{NotificationJob}
use cryptopulse_telegram_bot.Notification.Moves.{OthersMove, here}
use cryptopulse_telegram_bot.Notification.Delivery.{delivery_confirmed-Keeps}
use cryptopulse_telegram_bot.Notification.Process.{
  notification_enabled, subscription_known, subscription_of, alert_triggered, holds_claim,
  claim_checked, ensure_notification_job_claim_current, message_of, deliver, validate_and_deliver,
  process_locked, process_notification_job,
}
use cryptopulse_telegram_bot.Polling.Delivers.{calm}

abbrev pub subscribes : Option SubscriberRow → Bool
subscribes none = false
subscribes (some s) = s.is_subscribed

-- The chat is subscribed, or the alert has been triggered.
abbrev pub is_wanted : NotificationJob → ℕ → Db → Bool
is_wanted job now db =
    if not (is_price_alert job.kind)
    then subscribes (subscription_of job.chat_id now db)
    else alert_triggered job now db

pub ap_two : {A B C : Type 0} (f : A → B → C) {x y : A} {z t : B} → x ≡ y → z ≡ t → f x z ≡ f y t
ap_two f p q = cc

module _ (env : Env) (id : ℕ) (app : App) where
  -- A query that has gone well.
  record Asked {A : Type 0} (a : A) (w : World) (r : Result A × World) : Type 0 where
    answer : r.0 ≡ ok a
    same_db : r.1.db ≡ w.db
    same_held : r.1.held ≡ w.held
    same_outbox : r.1.outbox ≡ w.outbox
    one_call : r.1.calls ≡ suc w.calls

  known-Asked :
      (job : NotificationJob) (v : World) (o : Option SubscriberRow)
      → subscribes o ≡ true
      → Asked true v (subscription_known o (record v { calls = suc v.calls }))
  unfolding subscription_known
  known-Asked job v none h = absurd (ground (arith, h))
  known-Asked job v (some s) h = record {
    answer = ap ok h;
    same_db = refl;
    same_held = refl;
    same_outbox = refl;
    one_call = refl;
  }

  wanted-Asked :
      (job : NotificationJob) (w : World)
      → is_wanted job (env.clock w.calls) w.db ≡ true
      → Asked true w (notification_enabled (calm env id) job w)
  unfolding notification_enabled continue observe_error answered
  wanted-Asked job w h = elim (Bool-cases (is_price_alert job.kind)) [
    | inl k ↦ rw k (record {
      answer = ap ok (sym (rw k refl) ∙ h);
      same_db = refl;
      same_held = refl;
      same_outbox = refl;
      one_call = refl;
    })
    | inr k ↦ rw k (known-Asked job w _ (sym (rw k refl) ∙ h))
  ]

  claim-Asked :
      (job : NotificationJob) (w : World)
      → holds_claim job (env.clock w.calls) w.db ≡ true
      → Asked tt w (ensure_notification_job_claim_current (calm env id) job w)
  unfolding ensure_notification_job_claim_current claim_checked continue observe_error answered
  claim-Asked job w h = rw h (record {
    answer = refl;
    same_db = refl;
    same_held = refl;
    same_outbox = refl;
    one_call = refl;
  })

  handle_asked :
      {A : Type 0} (P : World → Type 0) (a : A) (f : A → World → Unit {0} × World) (g : _)
      (w : World) (r : Result A × World)
      → Asked a w r
      → P (f a r.1).1
      → P (handle f g r).1
  unfolding handle
  handle_asked P a f g w (r, v) q h = subst (λ x. P (handle f g (x, v)).1) (sym q.answer) h

  others : OthersMove (calm env id)
  others n d = here

  -- One message of the job has been sent at the time of a call, with these locks held.
  abbrev pub Said : NotificationJob → ℕ → List ℤ → List (Outgoing × List ℤ) → World → Type 0
  Said job n held outbox v = v.outbox ≡ (message_of app job (env.clock n), held) ∷ outbox

  validated :
      (job : NotificationJob) (v : World)
      → holds_claim job (env.clock v.calls) v.db ≡ true
      → Said job (suc v.calls) v.held v.outbox (validate_and_deliver (calm env id) app job v).1
  unfolding validate_and_deliver deliver handle
  validated job v c = handle_asked (Said job (suc v.calls) v.held v.outbox) tt _ _ _ _ a (
      (delivery_confirmed-Keeps (calm env id) others job _).outbox_kept
      ∙ ap_two (λ held outbox. (message_of app job (env.clock u.calls), held) ∷ outbox) a.same_held
          a.same_outbox
      ∙ ap (λ n. (message_of app job (env.clock n), v.held) ∷ v.outbox) a.one_call)
    where
      u : World
      u = (ensure_notification_job_claim_current (calm env id) job v).1

      a : Asked tt v (ensure_notification_job_claim_current (calm env id) job v)
      a = claim-Asked job v c

  pub sends :
      (job : NotificationJob) (w : World)
      → is_wanted job (env.clock (suc (suc w.calls))) w.db ≡ true
      → holds_claim job (env.clock (suc (suc (suc w.calls)))) w.db ≡ true
      → Said job
          (suc (suc (suc (suc w.calls))))
          (job.chat_id ∷ w.held)
          w.outbox
          (process_notification_job (calm env id) app job w).1
  unfolding process_notification_job unless_done handle answered process_locked
  sends job w h c =
      handle_asked (Said job (suc (suc (suc (suc w.calls)))) (job.chat_id ∷ w.held) w.outbox) true _
        _ _ _ a
        (m
          ∙ ap_two (λ held outbox. (message_of app job (env.clock (suc u.calls)), held) ∷ outbox)
              a.same_held a.same_outbox
          ∙ ap (λ n. (message_of app job (env.clock (suc n)), job.chat_id ∷ w.held) ∷ w.outbox)
              a.one_call)
    where
      locked : World
      locked = record w { calls = suc (suc w.calls); held = job.chat_id ∷ w.held }

      a : Asked true locked (notification_enabled (calm env id) job locked)
      a = wanted-Asked job locked h

      u : World
      u = (notification_enabled (calm env id) job locked).1

      m : Said job (suc u.calls) u.held u.outbox (validate_and_deliver (calm env id) app job u).1
      m = validated job u (ap_two (λ n d. holds_claim job (env.clock n) d) a.one_call a.same_db ∙ c)
