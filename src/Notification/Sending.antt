-- ===== src/Notification/Sending.antt =====
-- What processNotificationJob sends, and when.
use cryptopulse_telegram_bot.Prelude.{
  ℕ, suc, ℤ, List, subst, ◌≡◌, refl, ap, ap₂, ◌∙◌, ◌⊎◌, inl, inr, Bool, true, false, not, Option,
  none, some, ◌∷◌, Bool-cases, arith, drop,
}
use cryptopulse_telegram_bot.Bytes.{Bytes}
use cryptopulse_telegram_bot.GoError.{Error, plain, is_ownership_lost}
use cryptopulse_telegram_bot.Schema.{SubscriberRow, Db, is_price_alert}
use cryptopulse_telegram_bot.App.{App}
use cryptopulse_telegram_bot.Session.{
  Env, World, Outgoing, Result, ok, err, bump, query, release_lock,
}
use cryptopulse_telegram_bot.Session.Rules.{
  answered_then, answered_cases, if_then, handle_then, answered_handle,
}
use cryptopulse_telegram_bot.Notification.Jobs.{NotificationJob}
use cryptopulse_telegram_bot.Notification.Moves.{
  Moves, Moves-trans, Keeps, Keeps-refl, Keeps-bump, Keeps-counted, Keeps-trans, OthersMove,
}
use cryptopulse_telegram_bot.Notification.Delivery.{
  defer-Keeps, retry-Keeps, delivery_failed-Keeps, delivery_confirmed-Keeps, cancel_delivery-Keeps,
}
use cryptopulse_telegram_bot.Notification.Message.{
  IsWanted, HoldsClaim, IsMessage, holds_claim-HoldsClaim, subscription-IsSubscribed,
  alert_triggered-IsTriggered, message_of-IsMessage,
}
use cryptopulse_telegram_bot.Notification.Process.{
  is_subscribed, subscription_of, subscription_known, claim_checked, alert_triggered,
  notification_enabled, holds_claim, ensure_notification_job_claim_current, message_of, deliver,
  validation_failed, validate_and_deliver, deliver_if, process_locked, process_unless,
  process_notification_job,
}

-- A query of the database, which leaves everything else as it is.
pub record Checked (env : Env) (P : Db → Type 0) (w : World) (b : Bool) (v : World) : Type 0 where
  pub kept : Keeps w v
  pub same_db : v.db ≡ env.others w.calls w.db
  pub later : v.calls ≡ suc w.calls
  pub holds : b ≡ true → P v.db

abbrev positive : Result Bool → Bool
positive (ok b) = b
positive (err e) = false

abbrev succeeded : Result (Unit {0}) → Bool
succeeded (ok _) = true
succeeded (err e) = false

module _ (env : Env) (others : OthersMove env) (job : NotificationJob) where
  Enabled : World → Result Bool × World → Type 0
  Enabled w r = Checked env (IsWanted job) w (positive r.0) r.1

  queried : (w : World) → Keeps w (record (bump w) { db = env.others w.calls w.db })
  queried w = record { moved = others w.calls w.db; outbox_kept = refl; held_kept = refl }

  known-Enabled :
      (w : World) (row : Option SubscriberRow)
      → let v = record (bump w) { db = env.others w.calls w.db } in
        ((s : SubscriberRow) → row ≡ some s → s.is_subscribed ≡ true → IsWanted job v.db)
        → Enabled w (subscription_known row v)
  unfolding Enabled subscription_known
  known-Enabled w none h = record {
    kept = Keeps-counted (queried w);
    same_db = refl;
    later = refl;
    holds = λ e. cc;
  }
  known-Enabled w (some s) h = record {
    kept = Keeps-counted (queried w);
    same_db = refl;
    later = refl;
    holds = h s refl;
  }

  notification_enabled-Enabled : (w : World) → Enabled w (notification_enabled env job w)
  unfolding Enabled notification_enabled
  notification_enabled-Enabled w =
      if_then (Enabled w) (not (is_price_alert job.kind)) (is_subscribed env job.chat_id)
        (query env (alert_triggered job)) w
        (λ regular.
          answered_then (Enabled w) "check_subscription" subscription_known (env.failure w.calls) _
            _ _
            (λ m. record {
              kept = Keeps-counted (queried w);
              same_db = refl;
              later = refl;
              holds = λ e. cc;
            })
            (known-Enabled w (subscription_of job.chat_id 0 (env.others w.calls w.db)) (λ s e h.
              record {
                scheduled = λ k. subscription-IsSubscribed job.chat_id 0 _ s e h;
                alert = λ k. absurd (ground (arith, k, regular));
              })))
        (λ alert.
          answered_cases (Enabled w) (env.failure w.calls) _ _ _
            (λ m. record { kept = queried w; same_db = refl; later = refl; holds = λ e. cc })
            (record {
              kept = queried w;
              same_db = refl;
              later = refl;
              holds = λ e. record {
                scheduled = λ k. absurd (ground (arith, k, alert));
                alert = λ k. alert_triggered-IsTriggered job 0 _ e;
              };
            }))

  abbrev Current : World → Result (Unit {0}) × World → Type 0
  Current w r = Checked env (HoldsClaim job (env.clock w.calls)) w (succeeded r.0) r.1

  ensure-Checked : (w : World) → Current w (ensure_notification_job_claim_current env job w)
  unfolding ensure_notification_job_claim_current claim_checked
  ensure-Checked w =
      answered_then (Current w) "validate_notification_claim" claim_checked (env.failure w.calls) _
        _ _
        (λ m. record {
          kept = Keeps-counted (queried w);
          same_db = refl;
          later = refl;
          holds = λ e. cc;
        })
        (by_answer (holds_claim job (env.clock w.calls) (env.others w.calls w.db)) refl)
    where
      by_answer :
          (b : Bool)
          → holds_claim job (env.clock w.calls) (env.others w.calls w.db) ≡ b
          → Current w (claim_checked b (record (bump w) { db = env.others w.calls w.db }))
      by_answer true e = record {
        kept = Keeps-counted (queried w);
        same_db = refl;
        later = refl;
        holds = λ _. holds_claim-HoldsClaim job (env.clock w.calls) _ e;
      }
      by_answer false e = record {
        kept = Keeps-counted (queried w);
        same_db = refl;
        later = refl;
        holds = λ i. cc;
      }

-- One message has been added. The call with the number `first` asked, in the database that the other
-- sessions then left, whether the notification is wanted, and it was; the next call asked whether the
-- claim is still held at its time, and it was; the text was made at the call after that.
pub record Speaks (env : Env) (app : App) (job : NotificationJob) (first : ℕ) (d : Db)
    (locks : List ℤ) (before : List (Outgoing × List ℤ)) (v : World) : Type 0 where
  pub message : Outgoing
  pub wanted : IsWanted job (env.others first d)
  pub current : HoldsClaim job (env.clock (suc first)) (env.others (suc first) (env.others first d))
  pub is_message :
      IsMessage app job.chat_id job.lang job.text job.scheduled_at
        (env.clock (suc (suc first)))
        message
  pub grown : v.outbox ≡ (message, locks) ∷ before

-- The messages that a handler adds: none, or one, under the lock of the job's chat.
pub data Sends (env : Env) (app : App) (job : NotificationJob) (w v : World) : Type 0 where
  silent : v.outbox ≡ w.outbox → Sends env app job w v
  spoke :
      Speaks env app job (suc (suc w.calls)) w.db (job.chat_id ∷ w.held) w.outbox v
      → Sends env app job w v

pub record ProcessOutcome (env : Env) (app : App) (job : NotificationJob) (w v : World)
    : Type 0 where
  pub moved : Moves w.db v.db
  pub held_kept : v.held ≡ w.held
  pub sends : Sends env app job w v

module _ (env : Env) (others : OthersMove env) (app : App) (job : NotificationJob) where
  quiet : {w v : World} → Keeps w v → ProcessOutcome env app job w v
  quiet k = record { moved = k.moved; held_kept = k.held_kept; sends = silent k.outbox_kept }

  -- One message is added, and the rest keeps.
  record Delivered (w v : World) : Type 0 where
    moved : Moves w.db v.db
    held_kept : v.held ≡ w.held
    outbox_grown : v.outbox ≡ (message_of app job (env.clock w.calls), w.held) ∷ w.outbox

  sent_then :
      {w v : World}
      → Keeps
          (record (bump (bump w)) {
            outbox = (message_of app job (env.clock w.calls), w.held) ∷ w.outbox;
          })
          v
      → Delivered w v
  sent_then k = record { moved = k.moved; held_kept = k.held_kept; outbox_grown = k.outbox_kept }

  deliver-Delivered : (w : World) → Delivered w (deliver env app job w).1
  unfolding deliver
  deliver-Delivered w =
      handle_then (λ r. Delivered w r.1) _ _ _
        (λ message_id e. sent_then (delivery_confirmed-Keeps env others job _))
        (λ x e. sent_then (delivery_failed-Keeps env others app job x _))

  validation_failed-Keeps : (e : Error) (w : World) → Keeps w (validation_failed env app job e w).1
  unfolding validation_failed
  validation_failed-Keeps e w = elim (Bool-cases (is_ownership_lost e)) [
    | inl lost ↦ rw lost (Keeps-counted Keeps-refl)
    | inr other ↦ rw other (defer-Keeps env others app job _ w)
  ]

  -- With the chat's lock held: `w` is the world in which the handler began.
  record Finished (w v : World) : Type 0 where
    moved : Moves w.db v.db
    held_kept : v.held ≡ w.held
    sends : (v.outbox ≡ w.outbox) ⊎ Speaks env app job w.calls w.db w.held w.outbox v

  unsent : {w v : World} → Keeps w v → Finished w v
  unsent k = record { moved = k.moved; held_kept = k.held_kept; sends = inl k.outbox_kept }

  validate_and_deliver-Finished :
      (w u : World)
      → Checked env (IsWanted job) w true u
      → Finished w (validate_and_deliver env app job u).1
  unfolding validate_and_deliver
  validate_and_deliver-Finished w u k =
      handle_then (λ r. Finished w r.1) _ _ _
        (λ a e.
          let d = deliver-Delivered x in
          record {
            moved = Moves-trans k.kept.moved (Moves-trans c.kept.moved d.moved);
            held_kept = d.held_kept ∙ c.kept.held_kept ∙ k.kept.held_kept;
            sends = inr (record {
              message = message_of app job (env.clock x.calls);
              wanted = subst (IsWanted job) k.same_db (k.holds refl);
              current = current (c.holds (ap succeeded e));
              is_message =
                  subst
                    (λ n.
                      IsMessage app job.chat_id job.lang job.text job.scheduled_at (env.clock n)
                        (message_of app job (env.clock x.calls)))
                    (c.later ∙ ap suc k.later) (message_of-IsMessage app job (env.clock x.calls));
              grown =
                  d.outbox_grown
                  ∙ ap₂ (λ h o. (message_of app job (env.clock x.calls), h) ∷ o)
                      (c.kept.held_kept ∙ k.kept.held_kept)
                      (c.kept.outbox_kept ∙ k.kept.outbox_kept);
            });
          })
        (λ y e. unsent (Keeps-trans k.kept (Keeps-trans c.kept (validation_failed-Keeps y x))))
    where
      x : World
      x = (ensure_notification_job_claim_current env job u).1

      c :
          Checked env
            (HoldsClaim job (env.clock u.calls))
            u
            (succeeded (ensure_notification_job_claim_current env job u).0)
            x
      c = ensure-Checked env others job u

      found : x.db ≡ env.others (suc w.calls) (env.others w.calls w.db)
      found = c.same_db ∙ ap₂ env.others k.later k.same_db

      current :
          HoldsClaim job (env.clock u.calls) x.db
          → HoldsClaim job
              (env.clock (suc w.calls))
              (env.others (suc w.calls) (env.others w.calls w.db))
      current h =
          subst
            (λ n. HoldsClaim job (env.clock n) (env.others (suc w.calls) (env.others w.calls w.db)))
            k.later (subst (HoldsClaim job (env.clock u.calls)) found h)

  process_locked-Finished : (w : World) → Finished w (process_locked env app job w).1
  unfolding process_locked Enabled
  process_locked-Finished w =
      handle_then (λ r. Finished w r.1) (deliver_if env app job) _ _ by_answer
        (λ x e. unsent (Keeps-trans c.kept (defer-Keeps env others app job _ _)))
    where
      c : Enabled env others job w (notification_enabled env job w)
      c = notification_enabled-Enabled env others job w

      by_answer :
          (b : Bool)
          → (notification_enabled env job w).0 ≡ ok b
          → Finished w (deliver_if env app job b (notification_enabled env job w).1).1
      by_answer true e = validate_and_deliver-Finished w _ (record {
        kept = c.kept;
        same_db = c.same_db;
        later = c.later;
        holds = λ _. c.holds (ap positive e);
      })
      by_answer false e = unsent (Keeps-trans c.kept (cancel_delivery-Keeps env others job _))

  released :
      {w v : World}
      → Finished (record (bump (bump w)) { held = job.chat_id ∷ w.held }) v
      → ProcessOutcome env app job w (release_lock env v).1
  released f = record {
    moved = f.moved;
    held_kept = ap (drop 1) f.held_kept;
    sends = elim f.sends [
      | inl s ↦ silent s
      | inr s ↦ spoke (record {
        message = s.message;
        wanted = s.wanted;
        current = s.current;
        is_message = s.is_message;
        grown = s.grown;
      })
    ];
  }

-- Whatever the environment does, as long as other sessions run the same program: processing a claimed
-- job only makes moves of the outbox, gives the chat's lock back, and sends at most one message. It
-- sends one only under the chat's lock, to the job's chat and with the job's text, with a warning after it
-- if the text was scheduled more than a minute before. Then the database at the third of its calls had a
-- row by which it is wanted (the subscribed chat, or the chat's triggered alert), and
-- after that the database at the fourth, at the time of this call, had the job's row with its token and its
-- attempt, being sent, with more than 15 seconds left of its lease.
pub process_notification_job-ProcessOutcome :
    (env : Env) (app : App) (job : NotificationJob) (w : World)
    → OthersMove env
    → ProcessOutcome env app job w (process_notification_job env app job w).1
unfolding process_notification_job
process_notification_job-ProcessOutcome env app job w others =
    by_context (env.context_error w.calls)
  where
    by_context :
        (o : Option Bytes) → ProcessOutcome env app job w (process_unless env app job o (bump w)).1
    by_context (some m) =
        quiet env others app job
          (Keeps-trans (Keeps-bump Keeps-refl) (retry-Keeps env others app job (plain m) (bump w)))
    by_context none =
        answered_handle (λ r. ProcessOutcome env app job w r.1) _ _ (env.failure (suc w.calls)) _ _
          _
          (λ m.
            quiet env others app job (
              Keeps-trans (Keeps-bump (Keeps-bump Keeps-refl))
                (defer-Keeps env others app job _ _)))
          (released env others app job (process_locked-Finished env others app job _))
