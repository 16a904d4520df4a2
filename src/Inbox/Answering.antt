-- ===== src/Inbox/Answering.antt =====
-- The callback answers that go to Telegram after the commit.
use cryptopulse_telegram_bot.Prelude.{
  ℕ, zero, suc, ◌≡◌, refl, sym, ◌∙◌, List, [], ◌∷◌, ◌++◌, length, ap,
}
use mathlib.Core.List.{append-nil, append_assoc}
use cryptopulse_telegram_bot.App.{App}
use cryptopulse_telegram_bot.Update.{CallbackAnswer}
use cryptopulse_telegram_bot.Session.{
  Env, World, Answer, delivered, rejected, unreachable, Counter, bump,
}
use cryptopulse_telegram_bot.Inbox.Jobs.{TelegramUpdateJob}
use cryptopulse_telegram_bot.Inbox.Process.{
  flush_callback_answers, callback_answered, observe_completed_telegram_update, add_times,
  after_commit,
}

module _ (env : Env) (app : App) (job : TelegramUpdateJob) where
  -- What sending these answers changes.
  pub record Answers (answers : List CallbackAnswer) (w v : World) : Type 0 where
    pub db_kept : v.db ≡ w.db
    pub logged : v.callback_log ≡ w.callback_log ++ answers
    pub outbox_kept : v.outbox ≡ w.outbox
    pub held_kept : v.held ≡ w.held

  Answers-trans :
      {a b : List CallbackAnswer} {u v w : World}
      → Answers a u v
      → Answers b v w
      → Answers (a ++ b) u w
  Answers-trans {a} {b} {u} x y = record {
    db_kept = y.db_kept ∙ x.db_kept;
    logged = y.logged ∙ ap (λ log. log ++ b) x.logged ∙ append_assoc u.callback_log a b;
    outbox_kept = y.outbox_kept ∙ x.outbox_kept;
    held_kept = y.held_kept ∙ x.held_kept;
  }

  callback_answered-Answers :
      (o : Answer) (a : CallbackAnswer) (w : World)
      → Answers
          (a ∷ [])
          w
          (callback_answered o (record (bump w) { callback_log = w.callback_log ++ a ∷ [] }))
  unfolding callback_answered
  callback_answered-Answers (delivered id) a w = record {
    db_kept = refl;
    logged = refl;
    outbox_kept = refl;
    held_kept = refl;
  }
  callback_answered-Answers (rejected e) a w = record {
    db_kept = refl;
    logged = refl;
    outbox_kept = refl;
    held_kept = refl;
  }
  callback_answered-Answers (unreachable m) a w = record {
    db_kept = refl;
    logged = refl;
    outbox_kept = refl;
    held_kept = refl;
  }

  uncounted :
      {answers : List CallbackAnswer} {w v : World} {counters : List Counter}
      → Answers answers (record w { counters = counters }) v
      → Answers answers w v
  uncounted a = record {
    db_kept = a.db_kept;
    logged = a.logged;
    outbox_kept = a.outbox_kept;
    held_kept = a.held_kept;
  }

  recounted :
      {answers : List CallbackAnswer} {w v : World} {counters : List Counter}
      → Answers answers w v
      → Answers answers w (record v { counters = counters })
  recounted a = record {
    db_kept = a.db_kept;
    logged = a.logged;
    outbox_kept = a.outbox_kept;
    held_kept = a.held_kept;
  }

  flush_callback_answers-Answers :
      (answers : List CallbackAnswer) (w : World)
      → Answers answers w (flush_callback_answers env answers w).1
  unfolding flush_callback_answers
  flush_callback_answers-Answers [] w = record {
    db_kept = refl;
    logged = sym (append-nil w.callback_log);
    outbox_kept = refl;
    held_kept = refl;
  }
  flush_callback_answers-Answers (a ∷ answers) w =
      Answers-trans (callback_answered-Answers (env.telegram w.calls) a w)
        (flush_callback_answers-Answers answers _)

  add_times-Answers : (n : ℕ) (w : World) → Answers [] w (add_times n w).1
  add_times-Answers zero w = record {
    db_kept = refl;
    logged = sym (append-nil w.callback_log);
    outbox_kept = refl;
    held_kept = refl;
  }
  add_times-Answers (suc n) w = uncounted (add_times-Answers n _)

  pub after_commit-Answers : (x : World) → Answers x.callbacks x (after_commit env app job tt x).1
  unfolding after_commit observe_completed_telegram_update
  after_commit-Answers x = recounted (
      Answers-trans (uncounted (add_times-Answers (length x.collected) _))
        (flush_callback_answers-Answers x.callbacks _))
