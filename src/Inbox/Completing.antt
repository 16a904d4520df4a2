-- ===== src/Inbox/Completing.antt =====
-- What completing an update leaves in the view of its transaction, and what the writes that give it up
-- or put it back change.
use cryptopulse_telegram_bot.Prelude.{
  ℕ, suc, ◌<◌, ◌≡◌, refl, ◌∙◌, arith, Bool, List, [], ◌∷◌, ◌==◌, if_both,
}
use cryptopulse_telegram_bot.GoError.{Error}
use cryptopulse_telegram_bot.Schema.{Db}
use cryptopulse_telegram_bot.Table.{affected}
use cryptopulse_telegram_bot.Update.{TelegramReply}
use cryptopulse_telegram_bot.Session.{Env, World, Result, Counter, ok, err, continue, refreshed}
use cryptopulse_telegram_bot.Session.Rules.{answered_then, if_then, exec_then}
use cryptopulse_telegram_bot.Session.Quiet.{
  Quiet, Quiet-same, Quiet-unseen, refreshed-Quiet, Quiet-trans,
}
use cryptopulse_telegram_bot.Inbox.Jobs.{TelegramUpdateJob, completed, owns, end_claim}
use cryptopulse_telegram_bot.Inbox.Process.{
  insert_reply, insert_replies, complete_telegram_update_tx, mark_processed,
}

module _ (env : Env) (job : TelegramUpdateJob) where
  -- Nothing but the view changes, and the collected answers stay.
  pub record Only (w v : World) : Type 0 where
    pub quiet : Quiet env w v
    pub callbacks_kept : v.callbacks ≡ w.callbacks

  Only-trans : {u v w : World} → Only u v → Only v w → Only u w
  Only-trans a b = record {
    quiet = Quiet-trans env a.quiet b.quiet;
    callbacks_kept = b.callbacks_kept ∙ a.callbacks_kept;
  }

  refreshed-Only :
      (w : World) {view : Db} {writing : Bool} {calls : ℕ} {counters : List Counter}
      → Only w (record (refreshed env w) {
        view = view;
        writing = writing;
        calls = calls;
        counters = counters;
      })
  refreshed-Only w = record {
    quiet = Quiet-unseen env (refreshed-Quiet env w);
    callbacks_kept = if_both (λ v. v.callbacks ≡ w.callbacks) w.writing w _ refl refl;
  }

  insert_replies-Only :
      (n : ℕ) (replies : List TelegramReply) (w : World)
      → Only w (insert_replies env job n replies w).1
  unfolding insert_replies
  insert_replies-Only n [] w = record { quiet = Quiet-same env w; callbacks_kept = refl }
  insert_replies-Only n (reply ∷ replies) w =
      exec_then env (λ r. Only w r.1) _ _ (insert_reply job n reply) w (λ m. refreshed-Only w)
        (Only-trans (refreshed-Only w) (insert_replies-Only (suc n) replies _))

  -- The update of the job is completed in the view, on top of what the last statement found.
  pub record Completed (o : Result (Unit {0})) (v w : World) : Type 0 where
    pub inserted : o ≡ ok tt
    pub owned : 0 < affected (owns job) (refreshed env v).view.telegram_updates
    pub written :
        w.view ≡ (end_claim job completed (refreshed env v).tx_now (refreshed env v).view).1

  pub record Completes (w : World) (q : Result (Unit {0}) × World) (r : Result (Unit {0}) × World)
      : Type 0 where
    pub only : Only w r.1
    pub on_success : (a : Unit {0}) → r.0 ≡ ok a → Completed q.0 q.1 r.1

  failed_completion :
      {w u : World} {q : Result (Unit {0}) × World} {e : Error}
      → Only w u
      → Completes w q (err e, u)
  failed_completion q = record { only = q; on_success = λ a h. absurd (ground (arith, h)) }

  mark_processed-Completes :
      (w v : World) → Only w v → Completes w (ok tt, v) (mark_processed env job v)
  unfolding mark_processed end_claim
  mark_processed-Completes w v q =
      exec_then env (Completes w (ok tt, v)) _ _ (end_claim job completed) v
        (λ m. failed_completion (Only-trans q (refreshed-Only v)))
        (answered_then (Completes w (ok tt, v)) _ _ _ _ _ _
          (λ m. failed_completion (Only-trans q (refreshed-Only v)))
          (if_then (Completes w (ok tt, v))
            (affected (owns job) (refreshed env v).view.telegram_updates == 0) _ _ _
            (λ e. failed_completion (Only-trans q (refreshed-Only v)))
            (λ e. record {
              only = Only-trans q (refreshed-Only v);
              on_success =
                  λ a h. record { inserted = refl; owned = ground (arith, e); written = refl };
            })))

  pub complete_telegram_update_tx-Completes :
      (replies : List TelegramReply) (w : World)
      → Completes w
          (insert_replies env job 0 replies w)
          (complete_telegram_update_tx env job replies w)
  unfolding complete_telegram_update_tx continue
  complete_telegram_update_tx-Completes replies w =
      ended (insert_replies env job 0 replies w) (insert_replies-Only 0 replies w)
    where
      ended :
          (r : Result (Unit {0}) × World)
          → Only w r.1
          → Completes w r (continue (λ done. mark_processed env job) r)
      ended (err e, v) q = failed_completion q
      ended (ok done, v) q = mark_processed-Completes w v q
