-- ===== src/Session/Quiet.antt =====
-- The calls of a transaction that is not committed: only other sessions change the database meanwhile,
-- nothing goes to Telegram, and the locks stay as they are.
use cryptopulse_telegram_bot.Prelude.{
  ℕ, ◌≡◌, refl, if_both, ◌∙◌, List, String, Bool, true, false, if◌then◌else◌,
}
use cryptopulse_telegram_bot.Schema.{Db}
use cryptopulse_telegram_bot.Update.{CallbackAnswer, TelegramReply}
use cryptopulse_telegram_bot.Session.{
  Env, World, Result, Try, Counter, ok, err, continue, read, exec, rows_affected, bump, refreshed,
  observe_error,
}
use cryptopulse_telegram_bot.Session.Rules.{Interleaved, start, more, answered_cases}

pub Interleaved-trans :
    {env : Env} {d e f : Db} → Interleaved env d e → Interleaved env e f → Interleaved env d f
Interleaved-trans i start = i
Interleaved-trans i (more n j) = more n (Interleaved-trans i j)

module _ (env : Env) where
  pub record Quiet (w v : World) : Type 0 where
    pub others_only : Interleaved env w.db v.db
    pub log_kept : v.callback_log ≡ w.callback_log
    pub outbox_kept : v.outbox ≡ w.outbox
    pub held_kept : v.held ≡ w.held

  abbrev pub IsQuiet : {A : Type 0} → Try A → Type 0
  IsQuiet m = (w : World) → Quiet w (m w).1

  abbrev pub IsQuietChange : (World → World) → Type 0
  IsQuietChange f = (w : World) → Quiet w (f w)

  pub Quiet-same : (w : World) → Quiet w w
  Quiet-same w = record {
    others_only = start;
    log_kept = refl;
    outbox_kept = refl;
    held_kept = refl;
  }

  pub Quiet-trans : {u v w : World} → Quiet u v → Quiet v w → Quiet u w
  Quiet-trans a b = record {
    others_only = Interleaved-trans a.others_only b.others_only;
    log_kept = b.log_kept ∙ a.log_kept;
    outbox_kept = b.outbox_kept ∙ a.outbox_kept;
    held_kept = b.held_kept ∙ a.held_kept;
  }

  continue-Quiet :
      {A B : Type 0} (f : A → Try B) (w : World) (r : Result A × World)
      → Quiet w r.1
      → ((a : A) → IsQuiet (f a))
      → Quiet w (continue f r).1
  unfolding continue
  continue-Quiet f w (ok a, v) q qf = Quiet-trans q (qf a v)
  continue-Quiet f w (err e, v) q qf = q

  pub IsQuiet-bind :
      {A B : Type 0} (m : Try A) (f : A → Try B)
      → IsQuiet m
      → ((a : A) → IsQuiet (f a))
      → IsQuiet (λ w. continue f (m w))
  IsQuiet-bind m f qm qf w = continue-Quiet f w (m w) (qm w) qf

  pub refreshed-Quiet : (w : World) → Quiet w (refreshed env w)
  refreshed-Quiet w = if_both (Quiet w) w.writing w _ (Quiet-same w) (record {
    others_only = more w.calls start;
    log_kept = refl;
    outbox_kept = refl;
    held_kept = refl;
  })

  -- What the program alone sees is no part of it.
  pub Quiet-unseen :
      {w v : World} {view : Db} {writing : Bool} {calls : ℕ} {collected : List TelegramReply}
      {callbacks : List CallbackAnswer} {counters : List Counter}
      → Quiet w v
      → Quiet w (record v {
        view = view;
        writing = writing;
        calls = calls;
        collected = collected;
        callbacks = callbacks;
        counters = counters;
      })
  Quiet-unseen q = record {
    others_only = q.others_only;
    log_kept = q.log_kept;
    outbox_kept = q.outbox_kept;
    held_kept = q.held_kept;
  }

  pub IsQuiet-read : {A : Type 0} (f : ℕ → Db → A) → IsQuiet (read env f)
  unfolding read
  IsQuiet-read f w =
      answered_cases (λ r. Quiet w r.1) (env.failure w.calls) (bump (refreshed env w)) _
        (bump (refreshed env w)) (λ m. Quiet-unseen (refreshed-Quiet w))
        (Quiet-unseen (refreshed-Quiet w))

  pub IsQuiet-exec : {A : Type 0} (f : ℕ → Db → A × Db) → IsQuiet (exec env f)
  unfolding exec
  IsQuiet-exec f w =
      answered_cases (λ r. Quiet w r.1) (env.failure w.calls) (bump (refreshed env w)) _
        (record (bump (refreshed env w)) {
          view = (f (refreshed env w).tx_now (refreshed env w).view).1;
          writing = true;
        })
        (λ m. Quiet-unseen (refreshed-Quiet w)) (Quiet-unseen (refreshed-Quiet w))

  pub IsQuiet-rows : (n : ℕ) → IsQuiet (rows_affected env n)
  IsQuiet-rows n w =
      answered_cases (λ r. Quiet w r.1) (env.failure w.calls) (bump w) n (bump w)
        (λ m. Quiet-unseen (Quiet-same w)) (Quiet-unseen (Quiet-same w))

  pub IsQuiet-observed :
      {A : Type 0} (operation : String) (m : Try A)
      → IsQuiet m
      → IsQuiet (λ w. observe_error operation (m w))
  unfolding observe_error
  IsQuiet-observed {A = A} operation m q w = counted (m w) (q w)
    where
      counted : (r : Result A × World) → Quiet w r.1 → Quiet w (observe_error operation r).1
      counted (ok a, v) k = k
      counted (err e, v) k = Quiet-unseen k

  pub IsQuiet-if :
      {A : Type 0} (b : Bool) (m n : Try A)
      → IsQuiet m
      → IsQuiet n
      → IsQuiet (λ w. (if b then m else n) w)
  IsQuiet-if true m n qm qn = qm
  IsQuiet-if false m n qm qn = qn
