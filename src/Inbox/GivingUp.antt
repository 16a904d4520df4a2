-- ===== src/Inbox/GivingUp.antt =====
-- What the writes that put an update back or give it up change.
use cryptopulse_telegram_bot.Prelude.{ℕ, ◌≡◌, refl, ◌∙◌, inl, inr, String, List, leb, Bool-cases}
use cryptopulse_telegram_bot.Bytes.{Bytes}
use cryptopulse_telegram_bot.GoError.{Error}
use cryptopulse_telegram_bot.Schema.{Db}
use cryptopulse_telegram_bot.Workers.{telegram_update_max_attempts}
use cryptopulse_telegram_bot.Session.{Env, World, Result, Counter}
use cryptopulse_telegram_bot.Session.Rules.{confirmed_then, Interleaved, start, more}
use cryptopulse_telegram_bot.Session.Steps.{Steps, here, next, Steps-trans}
use cryptopulse_telegram_bot.Session.Quiet.{Quiet}
use cryptopulse_telegram_bot.Notification.Outcome.{ensure_then}
use cryptopulse_telegram_bot.Inbox.Jobs.{TelegramUpdateJob, Ending, deferred, given_up, end_claim}
use cryptopulse_telegram_bot.Inbox.Finish.{
  finish, mark_telegram_update_retry, mark_telegram_update_failed,
  mark_telegram_update_processing_error,
}

module _ (env : Env) (job : TelegramUpdateJob) where
  -- A step that applies nothing of the update: one of other sessions, or the end of a claim of the
  -- update that puts it back or gives it up.
  pub data AsideStep (d : Db) : Db → Type 0 where
    other : (n : ℕ) → AsideStep d (env.others n d)
    put_back :
        (delay : ℕ) (error : Bytes) (now : ℕ)
        → AsideStep d (end_claim job (deferred delay error) now d).1
    gave_up : (error : Bytes) (now : ℕ) → AsideStep d (end_claim job (given_up error) now d).1

  pub record Aside (w v : World) : Type 0 where
    pub stepped : Steps AsideStep w.db v.db
    pub log_kept : v.callback_log ≡ w.callback_log
    pub outbox_kept : v.outbox ≡ w.outbox
    pub held_kept : v.held ≡ w.held

  pub Aside-trans : {u v w : World} → Aside u v → Aside v w → Aside u w
  Aside-trans a b = record {
    stepped = Steps-trans a.stepped b.stepped;
    log_kept = b.log_kept ∙ a.log_kept;
    outbox_kept = b.outbox_kept ∙ a.outbox_kept;
    held_kept = b.held_kept ∙ a.held_kept;
  }

  Interleaved-Steps : {d e : Db} → Interleaved env d e → Steps AsideStep d e
  Interleaved-Steps start = here
  Interleaved-Steps (more n i) = next (Interleaved-Steps i) (other n)

  pub Quiet-Aside : {w v : World} → Quiet env w v → Aside w v
  Quiet-Aside q = record {
    stepped = Interleaved-Steps q.others_only;
    log_kept = q.log_kept;
    outbox_kept = q.outbox_kept;
    held_kept = q.held_kept;
  }

  pub Aside-counted :
      {w v : World} {counters : List Counter} {calls : ℕ}
      → Aside w v
      → Aside w (record v { counters = counters; calls = calls })
  Aside-counted a = record {
    stepped = a.stepped;
    log_kept = a.log_kept;
    outbox_kept = a.outbox_kept;
    held_kept = a.held_kept;
  }

  finish-Aside :
      (operation : String) (ending : Ending) (w : World)
      → ((now : ℕ) (d : Db) → AsideStep d (end_claim job ending now d).1)
      → Aside w (finish env operation job ending w).1
  unfolding finish
  finish-Aside operation ending w step =
      confirmed_then Goal operation _ _ _ _ _
        (λ m. record {
          stepped = next here (other w.calls);
          log_kept = refl;
          outbox_kept = refl;
          held_kept = refl;
        })
        (λ m. ended) (ensure_then Goal _ env operation _ _ (λ m. ended) (λ e. ended) (λ e. ended))
    where
      Goal : Result (Unit {0}) × World → Type 0
      Goal r = Aside w r.1

      ended :
          {calls : ℕ} {counters : List Counter}
          → Aside w (record w {
            db = (end_claim job ending (env.clock w.calls) (env.others w.calls w.db)).1;
            calls = calls;
            counters = counters;
          })
      ended = record {
        stepped = next (next here (other w.calls)) (step (env.clock w.calls) _);
        log_kept = refl;
        outbox_kept = refl;
        held_kept = refl;
      }

  pub mark_telegram_update_failed-Aside :
      (e : Error) (w : World) → Aside w (mark_telegram_update_failed env job e w).1
  unfolding mark_telegram_update_failed
  mark_telegram_update_failed-Aside e w = finish-Aside _ (given_up _) w (λ now d. gave_up _ now)

  mark_telegram_update_retry-Aside :
      (e : Error) (w : World) → Aside w (mark_telegram_update_retry env job e w).1
  unfolding mark_telegram_update_retry
  mark_telegram_update_retry-Aside e w = finish-Aside _ (deferred _ _) w (λ now d. put_back _ _ now)

  pub mark_telegram_update_processing_error-Aside :
      (e : Error) (w : World) → Aside w (mark_telegram_update_processing_error env job e w).1
  unfolding mark_telegram_update_processing_error
  mark_telegram_update_processing_error-Aside e w =
      elim (Bool-cases (leb telegram_update_max_attempts job.attempts)) [
        | inl t ↦ rw t (Aside-counted (mark_telegram_update_failed-Aside e w))
        | inr t ↦ rw t (Aside-counted (mark_telegram_update_retry-Aside e w))
      ]
