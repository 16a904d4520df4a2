-- ===== src/Polling/Sends.antt =====
-- One round of a worker of notifications in an environment where nothing fails.
use cryptopulse_telegram_bot.Prelude.{
  ℕ, suc, ◌+◌, ◌<◌, ◌≡◌, refl, sym, subst, ap, ◌∙◌, inl, inr, arith, Bool, true, Option, some, List,
  [], ◌∷◌, pos, All, Elem, any, Bool-cases,
}
use cryptopulse_telegram_bot.Schema.{NotificationRow, Db}
use cryptopulse_telegram_bot.Table.{find, update}
use cryptopulse_telegram_bot.Table.Laws.{find_All, Elem-find}
use cryptopulse_telegram_bot.Workers.{
  interval, telegram_send_lease_safety_window, notification_job_claim_window,
}
use cryptopulse_telegram_bot.App.{App}
use cryptopulse_telegram_bot.Session.{Env, World, Outgoing, Result, ok, handle}
use cryptopulse_telegram_bot.Notification.Jobs.{
  NotificationJob, job_of, claim_row, claimed, is_candidate, claimable,
}
use cryptopulse_telegram_bot.Notification.Claim.{claim_pending_notification_job}
use cryptopulse_telegram_bot.Notification.Process.{
  holds_claim, message_of, process_notification_job,
}
use cryptopulse_telegram_bot.Outbox.Eligible.{Eligible, claimable-Eligible}
use cryptopulse_telegram_bot.Notification.Message.{IsMessage, message_of-IsMessage}
use cryptopulse_telegram_bot.Polling.{poll, claim_done, alert_worker}
use cryptopulse_telegram_bot.Polling.Wanted.{is_wanted, ap_two, Said, sends}
use cryptopulse_telegram_bot.Polling.Delivers.{
  calm, Progress, claim_pending_notification_job-Progress,
}

-- The row that a claim has changed is there afterwards.
any_update :
    {A : Type 0} (p q : A → Bool) (f : A → A) (xs : List A) (x : A)
    → find p xs ≡ some x
    → q (f x) ≡ true
    → any q (update p f xs) ≡ true
any_update p q f [] x e h = absurd (ground (arith, e))
any_update p q f (y ∷ xs) x e h = elim (Bool-cases (p y)) [
  | inl t ↦ rw t (ground (arith, subst (λ z. q (f z) ≡ true) (sym (same (sym (rw t refl) ∙ e))) h))
  | inr t ↦ rw t (ground (arith, any_update p q f xs x (sym (rw t refl) ∙ e) h))
]
  where
    same : some y ≡ some x → y ≡ x
    same e = cc

module _ (env : Env) (id : ℕ) (app : App) where
  -- The row is one whose notification is wanted.
  abbrev pub IsWanted : Db → NotificationRow → Type 0
  IsWanted db row = is_wanted (job_of 0 row) 0 db ≡ true

  pub record RoundSends (w v : World) : Type 0 where
    pub row : NotificationRow
    pub stands : Elem row w.db.notification_jobs
    pub can_claim : Eligible row.status row.next_attempt_at row.claimed_until (env.clock w.calls)
    pub message : Outgoing
    pub is_message :
        IsMessage app row.chat_id row.language_code row.message_text row.scheduled_at
          (env.clock (w.calls + 9))
          message
    pub grown : v.outbox ≡ (message, row.chat_id ∷ w.held) ∷ w.outbox

  -- A claim that was taken holds for thirty seconds: its lease less the time that a sending may take.
  claimed-holds_claim :
      (w : World) (p : Progress env id w) (t : ℕ)
      → t + interval (pos telegram_send_lease_safety_window)
        < env.clock w.calls + notification_job_claim_window
      → holds_claim (job_of p.token p.row) t (claim_row p.row_id p.token (env.clock w.calls) w.db).1
        ≡ true
  unfolding claim_row
  claimed-holds_claim w p t fast =
      any_update (is_candidate p.row_id (env.clock w.calls)) _ (claimed p.token (env.clock w.calls))
        w.db.notification_jobs p.row p.found (ground arith)

  -- The one round of a worker whose claim has returned a job
  round_done :
      (P : World → Type 0) (job : NotificationJob) (r : Result (Option NotificationJob) × World)
      (g : _)
      → r.0 ≡ ok (some job)
      → P (process_notification_job (calm env id) app job r.1).1
      → P
          (handle
            (claim_done
              (calm env id)
              (claim_pending_notification_job (calm env id))
              (process_notification_job (calm env id) app)
              (poll
                (calm env id)
                (claim_pending_notification_job (calm env id))
                (process_notification_job (calm env id) app)
                0))
            g
            r).1
  unfolding handle claim_done poll
  round_done P job (r, v) g e h = rw e h

  claimed-IsWanted :
      (w : World) (p : Progress env id w)
      → All
          (λ row. claimable (env.clock w.calls) row ≡ true → IsWanted w.db row)
          w.db.notification_jobs
      → IsWanted (claim_row p.row_id p.token (env.clock w.calls) w.db).1 p.row
  unfolding claim_row
  claimed-IsWanted w p wanted =
      find_All (is_candidate p.row_id (env.clock w.calls))
        (λ row. claimable (env.clock w.calls) row ≡ true → IsWanted w.db row) w.db.notification_jobs
        p.row wanted p.found p.can_claim

  -- A job that waits is sent. If nothing fails, no other session commits, no chat is locked and Telegram
  -- takes every message; if a row can be claimed when the round begins, every row that can be claimed is
  -- wanted (its chat is subscribed, or its alert is triggered), and the claim is checked less than thirty
  -- seconds after it was begun: then one round of the worker sends the text of one of those rows of the
  -- table (it is due, and waits or has a claim that has ended), with the warning after it if the text is
  -- then more than a minute late, to the row's chat, under the chat's lock, and sends nothing else.
  pub alert_worker-RoundSends :
      (w : World) (r : NotificationRow)
      → Elem r w.db.notification_jobs
      → claimable (env.clock w.calls) r ≡ true
      → All
          (λ row. claimable (env.clock w.calls) row ≡ true → IsWanted w.db row)
          w.db.notification_jobs
      → env.clock (w.calls + 8) + interval (pos telegram_send_lease_safety_window)
        < env.clock w.calls + notification_job_claim_window
      → RoundSends w (alert_worker (calm env id) app 1 w).1
  unfolding alert_worker poll claim_done handle
  alert_worker-RoundSends w r e h wanted fast = record {
    row = p.row;
    stands = Elem-find _ _ _ p.found;
    can_claim =
        claimable-Eligible p.row.status p.row.next_attempt_at p.row.claimed_until _ p.can_claim;
    message = message_of app (job_of p.token p.row) sent_at;
    is_message = message_of-IsMessage app (job_of p.token p.row) sent_at;
    grown =
        round_done
          (λ v'.
            v'.outbox
            ≡ (message_of app (job_of p.token p.row) sent_at, p.row.chat_id ∷ w.held) ∷ w.outbox)
          (job_of p.token p.row) (claim_pending_notification_job (calm env id) w) _ p.job_returned
          (m
            ∙ ap
                (λ n.
                  (message_of app (job_of p.token p.row) (env.clock n), p.row.chat_id ∷ v.held)
                  ∷ v.outbox)
                later
            ∙ ap_two
                (λ held outbox.
                  (message_of app (job_of p.token p.row) sent_at, p.row.chat_id ∷ held) ∷ outbox)
                p.same_held p.same_outbox);
  }
    where
      p : Progress env id w
      p = claim_pending_notification_job-Progress env id w r e h

      v : World
      v = (claim_pending_notification_job (calm env id) w).1

      sent_at : ℕ
      sent_at = env.clock (w.calls + 9)

      later : suc (suc (suc (suc v.calls))) ≡ w.calls + 9
      later = omega (arith, p.later_calls)

      m :
          Said env id app
            (job_of p.token p.row)
            (suc (suc (suc (suc v.calls))))
            (p.row.chat_id ∷ v.held)
            v.outbox
            (process_notification_job (calm env id) app (job_of p.token p.row) v).1
      m =
          sends env id app (job_of p.token p.row) v
            (ap (λ d. is_wanted (job_of p.token p.row) 0 d) p.db_claimed
              ∙ claimed-IsWanted w p wanted)
            (ap_two (λ n d. holds_claim (job_of p.token p.row) (env.clock n) d)
                (ap (λ n. suc (suc (suc n))) p.later_calls ∙ same_calls) p.db_claimed
              ∙ claimed-holds_claim w p (env.clock (w.calls + 8)) fast)
        where
          same_calls : suc (suc (suc (w.calls + 5))) ≡ w.calls + 8
          same_calls = omega arith
