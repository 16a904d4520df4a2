-- ===== src/Inbox/Atomicity.antt =====
-- An update takes effect and is completed at once, or neither.
use cryptopulse_telegram_bot.Prelude.{
  ℕ, ◌<◌, ◌≡◌, refl, subst, ◌∙◌, inl, inr, List, [], ◌++◌, Bool, true, false, Bool-cases, ap, none,
  some, Elem, arith,
}
use cryptopulse_telegram_bot.GoError.{Error, plain, is_ownership_lost}
use cryptopulse_telegram_bot.Schema.{UpdateRow, UpdateStatus, Db}
use cryptopulse_telegram_bot.Table.{affected}
use cryptopulse_telegram_bot.Table.Laws.{updated_stands}
use cryptopulse_telegram_bot.App.{App}
use cryptopulse_telegram_bot.Update.{Update}
use cryptopulse_telegram_bot.Session.{
  Env, World, Commit, applied, refused, unconfirmed, confirmed, handle, Result, ok, Counter, bump,
  refreshed,
}
use cryptopulse_telegram_bot.Session.Rules.{handle_then, answered_handle}
use cryptopulse_telegram_bot.Session.Steps.{Steps, here}
use cryptopulse_telegram_bot.Session.Quiet.{Quiet, IsQuiet, Quiet-same, IsQuiet-bind}
use cryptopulse_telegram_bot.Handlers.Quiet.{allow_telegram_mutation-Quiet, add_callback-Quiet}
use cryptopulse_telegram_bot.Handlers.Quiet.Updates.{process_telegram_update_with_db-Quiet}
use cryptopulse_telegram_bot.Inbox.Jobs.{TelegramUpdateJob, completed, owns, row_change, end_claim}
use cryptopulse_telegram_bot.Inbox.Completing.{Completes, complete_telegram_update_tx-Completes}
use cryptopulse_telegram_bot.Inbox.GivingUp.{
  AsideStep, Aside, Aside-trans, Quiet-Aside, mark_telegram_update_processing_error-Aside,
}
use cryptopulse_telegram_bot.Inbox.Answering.{Answers, after_commit-Answers}
use cryptopulse_telegram_bot.Inbox.Process.{
  insert_replies, complete_telegram_update_tx, skipped, apply_if, apply_update, after_commit,
  commit_failed, commit_update, completion_failed, complete_update, process_failed,
  apply_and_complete, begin_failed, process_locked,
}

module _ (env : Env) (app : App) (job : TelegramUpdateJob) where
  apply_if-Quiet : (u : Update) (b : Bool) (w : World) → Quiet env w (apply_if env app u b w).1
  unfolding apply_if
  apply_if-Quiet u true w = process_telegram_update_with_db-Quiet env app u w
  apply_if-Quiet u false w = elim u.callback_query as (λ q. Quiet env w (skipped q w)) [
    | none ↦ Quiet-same env w
    | some q ↦ add_callback-Quiet env q.id [] w
  ]

  apply_update-Quiet : (u : Update) → IsQuiet env (apply_update env app job u)
  unfolding apply_update
  apply_update-Quiet u =
      IsQuiet-bind env _ _ (allow_telegram_mutation-Quiet env job u) (apply_if-Quiet u)

  module _ (u : Update) (w : World) where
    -- The transaction begins with an empty collector; the update is applied in it; the replies are
    -- queued; and the next statement works on this database.
    abbrev pub started : World
    started = record (bump w) {
      view = w.db;
      tx_now = env.clock w.calls;
      writing = false;
      collected = [];
      callbacks = [];
    }

    abbrev pub handled : Result (Unit {0}) × World
    handled = apply_update env app job u started

    abbrev pub queued : World
    queued = refreshed env (insert_replies env job 0 handled.1.collected handled.1).1

    -- What is committed.
    abbrev pub final : Db
    final = (end_claim job completed queued.tx_now queued.view).1

    -- The handler and the insert of every reply succeeded, the job still owned its row, and the row is
    -- processed in what is committed.
    pub record IsApplied : Type 0 where
      pub handler_succeeded : handled.0 ≡ ok tt
      pub replies_queued : (insert_replies env job 0 handled.1.collected handled.1).0 ≡ ok tt
      pub owned : 0 < affected (owns job) queued.view.telegram_updates
      pub row : UpdateRow
      pub stands : Elem row final.telegram_updates
      pub same_id : row.update_id ≡ job.update_id
      pub is_processed : row.status ≡ UpdateStatus.processed

    -- How it ends: nothing of the update is applied; or it is committed and the confirmation is lost; or
    -- it is committed and its callback answers are sent.
    pub data JobOutcome (v : World) : Type 0 where
      aside : Aside env job w v → JobOutcome v
      lost : IsApplied → Aside env job (record w { db = final }) v → JobOutcome v
      done :
          IsApplied
          → v.db ≡ final
          → v.callback_log ≡ w.callback_log ++ handled.1.callbacks
          → v.outbox ≡ w.outbox
          → v.held ≡ w.held
          → JobOutcome v

  -- The row that the last statement changed.
  applied_row :
      (u : Update) (w : World)
      → (handled u w).0 ≡ ok tt
      → (insert_replies env job 0 (handled u w).1.collected (handled u w).1).0 ≡ ok tt
      → 0 < affected (owns job) (queued u w).view.telegram_updates
      → IsApplied u w
  unfolding end_claim
  applied_row u w handler inserts owned =
      let (row, i, e, stands) =
        updated_stands (owns job) (row_change completed (queued u w).tx_now)
          (queued u w).view.telegram_updates owned in
      record {
        handler_succeeded = handler;
        replies_queued = inserts;
        owned = owned;
        row = row_change completed (queued u w).tx_now row;
        stands = stands;
        same_id = ground (arith, e);
        is_processed = refl;
      }

  bumped :
      (x : World) {counters : List Counter} {calls : ℕ}
      → Aside env job x (record x { counters = counters; calls = calls })
  bumped x = record { stepped = here; log_kept = refl; outbox_kept = refl; held_kept = refl }

  -- The commit of a transaction in which the update is completed.
  commit_update-JobOutcome :
      (u : Update) (w x : World)
      → x.view ≡ final u w
      → IsApplied u w
      → x.callbacks ≡ (handled u w).1.callbacks
      → Aside env job w x
      → JobOutcome u w (commit_update env app job tt x).1
  unfolding commit_update commit_failed handle confirmed
  commit_update-JobOutcome u w x view is_applied answers a = by_commit (env.commit x.calls)
    where
      committed : World
      committed = record (bump x) { db = x.view }

      gone_on : Aside env job (record w { db = final u w }) committed
      gone_on = record {
        stepped = subst (λ d. Steps (AsideStep env job) d x.view) view here;
        log_kept = a.log_kept;
        outbox_kept = a.outbox_kept;
        held_kept = a.held_kept;
      }

      by_commit :
          (c : Commit)
          → JobOutcome u w
              (handle
                (after_commit env app job)
                (commit_failed env app job)
                (confirmed c (bump x) tt committed)).1
      by_commit applied =
          done is_applied (ans.db_kept ∙ view)
            (ans.logged
              ∙ ap (λ log. log ++ x.callbacks) a.log_kept
              ∙ ap (λ sent. w.callback_log ++ sent) answers)
            (ans.outbox_kept ∙ a.outbox_kept) (ans.held_kept ∙ a.held_kept)
        where
          ans : Answers env app job x.callbacks committed (after_commit env app job tt committed).1
          ans = after_commit-Answers env app job committed
      by_commit (refused m) = aside (
          Aside-trans env job a (
            Aside-trans env job (bumped x)
              (mark_telegram_update_processing_error-Aside env job (plain m) _)))
      by_commit (unconfirmed m) = lost is_applied (
          Aside-trans env job gone_on (
            Aside-trans env job (bumped committed)
              (mark_telegram_update_processing_error-Aside env job (plain m) _)))

  -- The completion of an update that has been applied.
  complete_update-JobOutcome :
      (u : Update) (w : World)
      → (handled u w).0 ≡ ok tt
      → Aside env job w (handled u w).1
      → JobOutcome u w (complete_update env app job tt (handled u w).1).1
  unfolding complete_update completion_failed
  complete_update-JobOutcome u w handler a =
      handle_then (λ r. JobOutcome u w r.1) _ _
        (complete_telegram_update_tx env job (handled u w).1.collected (handled u w).1)
        (λ ok_value e.
          commit_update-JobOutcome u w _ (c.on_success ok_value e).written
            (applied_row u w handler (c.on_success ok_value e).inserted
              (c.on_success ok_value e).owned)
            c.only.callbacks_kept (Aside-trans env job a through))
        (λ e failed.
          aside (Aside-trans env job a (Aside-trans env job through (completion_failed-Aside e _))))
    where
      c :
          Completes env job
            (handled u w).1
            (insert_replies env job 0 (handled u w).1.collected (handled u w).1)
            (complete_telegram_update_tx env job (handled u w).1.collected (handled u w).1)
      c = complete_telegram_update_tx-Completes env job (handled u w).1.collected (handled u w).1

      through :
          Aside env job
            (handled u w).1
            (complete_telegram_update_tx env job (handled u w).1.collected (handled u w).1).1
      through = Quiet-Aside env job c.only.quiet

      completion_failed-Aside :
          (e : Error) (x : World) → Aside env job x (completion_failed env app job e x).1
      completion_failed-Aside e x = elim (Bool-cases (is_ownership_lost e)) [
        | inl t ↦ rw t (bumped x)
        | inr t ↦ rw t (
            Aside-trans env job (bumped x)
              (mark_telegram_update_processing_error-Aside env job e _))
      ]

  -- With the lock of the chat held, a transaction that cannot begin, an update that cannot be applied and
  -- one that cannot be completed leave nothing of the update behind.
  apply_and_complete-JobOutcome :
      (u : Update) (w : World)
      → Aside env job w (started u w)
      → JobOutcome u w (apply_and_complete env app job u tt (started u w)).1
  unfolding apply_and_complete process_failed
  apply_and_complete-JobOutcome u w begun =
      handle_then (λ r. JobOutcome u w r.1) _ _ (handled u w)
        (λ ok_value e. complete_update-JobOutcome u w e (Aside-trans env job begun through))
        (λ e failed. aside (
          Aside-trans env job begun (
            Aside-trans env job through (mark_telegram_update_processing_error-Aside env job e _))))
    where
      through : Aside env job (started u w) (handled u w).1
      through = Quiet-Aside env job (apply_update-Quiet u (started u w))

  -- With the chat's lock held, whatever the environment does, an update of a job ends in one of three
  -- ways. Nothing of it is applied: the database only goes through steps of other sessions and writes
  -- that put the update back or give it up, and no callback is answered. Or its handler
  -- and the inserts of its replies have all succeeded, their changes and the row's status `processed` are
  -- committed at once, while the job still owned the row, and the handler's callback answers are sent
  -- afterwards. Or they are so committed, but the confirmation is lost: then no callback is answered, and what follows is again only steps of others
  -- and of putting back or giving up. In no case is another message sent, and the locks stay.
  pub process_locked-JobOutcome :
      (u : Update) (w : World) → JobOutcome u w (process_locked env app job u w).1
  unfolding process_locked begin_failed apply_and_complete
  process_locked-JobOutcome u w =
      answered_handle (λ r. JobOutcome u w r.1) _ _ (env.failure w.calls) (bump w) tt
        (record (bump w) { view = w.db; tx_now = env.clock w.calls; writing = false })
        (λ m. aside (
          Aside-trans env job (bumped w) (mark_telegram_update_processing_error-Aside env job _ _)))
        (apply_and_complete-JobOutcome u w
          (record { stepped = here; log_kept = refl; outbox_kept = refl; held_kept = refl }))
