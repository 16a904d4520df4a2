-- ===== src/Notification/Invariant.antt =====
-- What holds of every row of the outbox, and what no move changes.
use cryptopulse_telegram_bot.Prelude.{
  ℕ, [], ◌∷◌, Elem, ◌≡◌, ap, ◌≢◌, ◌⊎◌, inl, inr, true, false, none, arith, All,
}
use cryptopulse_telegram_bot.Schema.{
  NotificationRow, Db, is_sending, is_open, is_pending, sent, failed, canceled,
}
use cryptopulse_telegram_bot.App.{App}
use cryptopulse_telegram_bot.Session.{Env, World}
use cryptopulse_telegram_bot.Notification.Jobs.{
  NotificationJob, Ending, delivered, deferred, withdrawn, given_up, row_change, claimed,
}
use cryptopulse_telegram_bot.Notification.Moves.{Moves, OthersMove, IsStable, IsNew, Moves-Holds}
use cryptopulse_telegram_bot.Notification.Fencing.{OneRow}
use cryptopulse_telegram_bot.Notification.Process.{process_notification_job}
use cryptopulse_telegram_bot.Notification.Sending.{process_notification_job-ProcessOutcome}

-- A row has a claim exactly while it is being sent, and a final status has its time.
pub record IsWellFormed (row : NotificationRow) : Type 0 where
  pub claimed_token : is_sending row.status ≡ true → row.claim_token ≢ none
  pub claimed_lease : is_sending row.status ≡ true → row.claimed_until ≢ none
  pub free_token : is_sending row.status ≡ false → row.claim_token ≡ none
  pub free_lease : is_sending row.status ≡ false → row.claimed_until ≡ none
  pub sent_time : row.status ≡ sent → row.sent_at ≢ none
  pub failed_time : row.status ≡ failed → row.failed_at ≢ none
  pub canceled_time : row.status ≡ canceled → row.canceled_at ≢ none

abbrev pub WellFormed : Db → Type 0
WellFormed db = All IsWellFormed db.notification_jobs

claimed-IsWellFormed :
    (token now : ℕ) (row : NotificationRow) → IsWellFormed (claimed token now row)
claimed-IsWellFormed token now row = ground arith

row_change-IsWellFormed :
    (ending : Ending) (now : ℕ) (row : NotificationRow) → IsWellFormed (row_change ending now row)
row_change-IsWellFormed delivered now row = ground arith
row_change-IsWellFormed (deferred delay error) now row = ground arith
row_change-IsWellFormed withdrawn now row = ground arith
row_change-IsWellFormed (given_up error permanent) now row = ground arith

new-IsWellFormed : (row : NotificationRow) → IsNew row → IsWellFormed row
new-IsWellFormed row n = record {
  claimed_token = λ e. ground (arith, n.waiting, e);
  claimed_lease = λ e. ground (arith, n.waiting, e);
  free_token = λ e. n.no_token;
  free_lease = λ e. n.no_lease;
  sent_time = λ e. absurd (not_final (ap is_pending e));
  failed_time = λ e. absurd (not_final (ap is_pending e));
  canceled_time = λ e. absurd (not_final (ap is_pending e));
}
  where
    not_final : is_pending row.status ≡ false → ⊥
    not_final e = ground (arith, n.waiting, e)

row_change_id :
    (job : NotificationJob) (ending : Ending) (now : ℕ) (row : NotificationRow) {n : ℕ}
    → row.id ≢ n
    → (row_change ending now row).id ≢ n
row_change_id job delivered now row h = h
row_change_id job (deferred delay error) now row h = h
row_change_id job withdrawn now row h = h
row_change_id job (given_up error permanent) now row h = h

IsWellFormed-IsStable : IsStable IsWellFormed []
IsWellFormed-IsStable = record {
  claim_keeps = λ token now row c h. claimed-IsWellFormed token now row;
  end_keeps = λ job ending now row c h. row_change-IsWellFormed ending now row;
  withdraw_keeps = λ error now row c h. ground arith;
  new_holds = λ row b n. new-IsWellFormed row n;
}

-- Processing a job, interleaved with anything that other sessions of the program do, keeps every row
-- of the outbox well formed: claimed exactly while it is being sent, and stamped when it is final.
pub process_notification_job-WellFormed :
    (env : Env) (app : App) (job : NotificationJob) (w : World)
    → OthersMove env
    → WellFormed w.db
    → WellFormed (process_notification_job env app job w).1.db
process_notification_job-WellFormed env app job w others h =
    (Moves-Holds IsWellFormed-IsStable
      (process_notification_job-ProcessOutcome env app job w others).moved (tt, h)).1

-- A row that is sent, failed or canceled is final: whatever the sessions of the program do, no row with
-- its id is ever a different one. (The row's id is one that the table has given to a row.)
pub Moves-OneRow :
    (row : NotificationRow) {d e : Db}
    → is_open row.status ≡ false
    → Elem row.id d.job_ids
    → OneRow row d.notification_jobs
    → Moves d e
    → OneRow row e.notification_jobs
Moves-OneRow row final passed h moves = (Moves-Holds stable moves ((passed, tt), h)).1
  where
    open_other :
        (other : NotificationRow)
        → is_open other.status ≡ true
        → (other.id ≢ row.id) ⊎ (other ≡ row)
        → other.id ≢ row.id
    open_other other o (inl ne) = ne
    open_other other o (inr e) = absurd (ground (arith, ap (λ r. is_open r.status) e))

    stable : IsStable (λ other. (other.id ≢ row.id) ⊎ (other ≡ row)) (row.id ∷ [])
    stable = record {
      claim_keeps = λ token now other c h. inl (open_other other (ground arith) h);
      end_keeps = λ job ending now other c h.
          inl (row_change_id job ending now other (open_other other (ground arith) h));
      withdraw_keeps = λ error now other c h. inl (open_other other c h);
      new_holds = λ other b n. inl b.0;
    }
