-- ===== src/Polling/Locked.antt =====
-- What a worker of notifications does over any number of rounds.
use cryptopulse_telegram_bot.Prelude.{
  ℕ, zero, suc, ◌≡◌, refl, sym, subst, ◌∙◌, inl, not, Option, none, some, List, [], ◌∷◌, ℤ, All,
  Elem,
}
use cryptopulse_telegram_bot.App.{App}
use cryptopulse_telegram_bot.Session.{
  Env, World, Act, Try, Result, Outgoing, bump, unless_done, check_context,
}
use cryptopulse_telegram_bot.Session.Rules.{
  answered_then, confirmed_then, if_then, handle_then, unless_done_then,
}
use cryptopulse_telegram_bot.Outbox.{Outbox, commit_or, claim_or, claim_first, claim_pending}
use cryptopulse_telegram_bot.Outbox.Outcome.{ClaimOutcome, nothing, claims, broken, lost}
use cryptopulse_telegram_bot.Notification.Jobs.{NotificationJob}
use cryptopulse_telegram_bot.Notification.Jobs.{claim_row}
use cryptopulse_telegram_bot.Notification.Claim.{
  notification_outbox, claim_pending_notification_job,
}
use cryptopulse_telegram_bot.Notification.Claiming.{
  Claims, claim_pending_notification_job-ClaimOutcome,
}
use cryptopulse_telegram_bot.Notification.Moves.{
  Moves, here, next, claim, Moves-trans, OthersMove, Interleaved-Moves,
}
use cryptopulse_telegram_bot.Notification.Process.{process_notification_job}
use cryptopulse_telegram_bot.Notification.Sending.{
  Sends, silent, spoke, process_notification_job-ProcessOutcome,
}
use cryptopulse_telegram_bot.Polling.{Exit, canceled, poll, claim_done, alert_worker}

-- What the parts of a loop keep, the loop keeps.
module _ {Job : Type 0} (env : Env) (claim_job : Try (Option Job)) (process : Job → Act (Unit {0}))
    (R : World → World → Type 0) (same : (w : World) → R w w)
    (both : (u v w : World) → R u v → R v w → R u w) (asked : (w : World) → R w (bump w))
    (claim_keeps : (w : World) → R w (claim_job w).1)
    (process_keeps : (job : Job) (w : World) → R w (process job w).1) where
  pub poll_keeps : (rounds : ℕ) (w : World) → R w (poll env claim_job process rounds w).1
  unfolding poll claim_done
  poll_keeps zero w = same w
  poll_keeps (suc rounds) w = both w (claim_job w).1 _ (claim_keeps w) (
      handle_then (λ (r : Exit × World). R (claim_job w).1 r.1) _ _ (claim_job w)
        (λ o e. done o (claim_job w).1 (poll_keeps rounds))
        (λ e h.
          unless_done_then (λ (r : Exit × World). R (claim_job w).1 r.1)
            (env.context_error (claim_job w).1.calls) _ _ _ (λ m. asked _)
            (both _ _ _ (asked _) (waited _ (poll_keeps rounds)))))
    where
      waited :
          (v : World)
          → ((u : World) → R u (poll env claim_job process rounds u).1)
          → R v
              (unless_done
                (check_context env v).0
                (λ m. canceled)
                (poll env claim_job process rounds)
                (check_context env v).1).1
      waited v rest =
          unless_done_then (λ (r : Exit × World). R v r.1) (env.context_error v.calls) _ _ _
            (λ m. asked v) (both _ _ _ (asked v) (rest (bump v)))

      done :
          (o : Option Job) (v : World)
          → ((u : World) → R u (poll env claim_job process rounds u).1)
          → R v (claim_done env claim_job process (poll env claim_job process rounds) o v).1
      done none v rest = waited v rest
      done (some job) v rest = both _ _ _ (process_keeps job v) (rest _)

-- A claim sends nothing and takes no session-level lock.
module _ {Job : Type 0} (o : Outbox Job) (env : Env) (outbox : List (Outgoing × List ℤ))
    (held : List ℤ) where
  IsSilent : {A : Type 0} → Result A × World → Type 0
  IsSilent r = (r.1.outbox ≡ outbox) × (r.1.held ≡ held)

  claim_first-IsSilent :
      (rows : List (ℕ × ℤ)) (w : World)
      → w.outbox ≡ outbox
      → w.held ≡ held
      → IsSilent (claim_first o env rows w)
  unfolding claim_first IsSilent commit_or
  claim_first-IsSilent [] w s h = (s, h)
  claim_first-IsSilent ((id, chat) ∷ rest) w s h =
      answered_then IsSilent o.operation _ _ _ _ _ (λ m. (s, h))
        (if_then IsSilent (not (env.lock_free w.calls)) (claim_first o env rest)
          (claim_or o env (claim_first o env rest) id) (bump w)
          (λ busy. claim_first-IsSilent rest (bump w) s h)
          (λ free.
            answered_then IsSilent o.operation _ _ _ _ _ (λ m. (s, h))
              (by_row _ _ (claim_first-IsSilent rest) s h)))
    where
      by_row :
          (row : Option Job) (v : World)
          → ((u : World) → u.outbox ≡ outbox → u.held ≡ held → IsSilent (claim_first o env rest u))
          → v.outbox ≡ outbox
          → v.held ≡ held
          → IsSilent (commit_or o env (claim_first o env rest) row v)
      by_row none v other s h = other v s h
      by_row (some job) v other s h =
          confirmed_then IsSilent o.operation _ _ _ _ _ (λ m. (s, h)) (λ m. (s, h)) (s, h)

  claim_pending-IsSilent :
      (w : World) → w.outbox ≡ outbox → w.held ≡ held → IsSilent (claim_pending o env w)
  unfolding claim_pending IsSilent
  claim_pending-IsSilent w s h =
      answered_then IsSilent o.operation _ _ _ _ _ (λ m. (s, h))
        (answered_then IsSilent o.operation _ _ _ _ _ (λ m. (s, h)) (claim_first-IsSilent _ _ s h))

-- A message was sent while the lock of its chat was held.
abbrev pub IsUnderLock : Outgoing × List ℤ → Type 0
IsUnderLock m = Elem m.0.chat_id m.1

pub record RunOutcome (w v : World) : Type 0 where
  pub moved : Moves w.db v.db
  pub held_kept : v.held ≡ w.held
  pub under_lock : All IsUnderLock w.outbox → All IsUnderLock v.outbox

module _ (env : Env) (app : App) (others : OthersMove env) where
  claim-Moves :
      (w : World) (r : Result (Option NotificationJob) × World)
      → ClaimOutcome Claims env w.db w.calls (env.clock w.calls) r
      → Moves w.db r.1.db
  unfolding claim_row
  claim-Moves w r (nothing e i) = Interleaved-Moves others i
  claim-Moves w r (claims job before n l u e i c) =
      subst (Moves w.db) (sym c.written)
        (next (Interleaved-Moves others i) (claim c.row.id (env.uuid n) (env.clock w.calls)))
  claim-Moves w r (broken m e i) = Interleaved-Moves others i
  claim-Moves w r (lost m job before n l u e i c) =
      subst (Moves w.db) (sym c.written)
        (next (Interleaved-Moves others i) (claim c.row.id (env.uuid n) (env.clock w.calls)))

  claim-RunOutcome : (w : World) → RunOutcome w (claim_pending_notification_job env w).1
  unfolding claim_pending_notification_job IsSilent
  claim-RunOutcome w =
      let s = claim_pending-IsSilent notification_outbox env w.outbox w.held w refl refl in
      record {
        moved = claim-Moves w _ (claim_pending_notification_job-ClaimOutcome env w);
        held_kept = s.1;
        under_lock = subst (All IsUnderLock) (sym s.0);
      }

  process-RunOutcome :
      (job : NotificationJob) (w : World) → RunOutcome w (process_notification_job env app job w).1
  process-RunOutcome job w =
      let p = process_notification_job-ProcessOutcome env app job w others in
      record { moved = p.moved; held_kept = p.held_kept; under_lock = spoken _ p.sends }
    where
      spoken :
          (v : World) → Sends env app job w v → All IsUnderLock w.outbox → All IsUnderLock v.outbox
      spoken v (silent e) h = subst (All IsUnderLock) (sym e) h
      spoken v (spoke s) h = subst (All IsUnderLock) (sym s.grown) (inl s.is_message.to_chat, h)

  -- Whatever fails and however long it runs, if the other sessions run the same program: a worker of
  -- notifications only makes moves of the outbox, holds the locks afterwards that it held before, and
  -- every message that it sends is sent while the lock of the message's chat is held.
  pub alert_worker-RunOutcome :
      (rounds : ℕ) (w : World) → RunOutcome w (alert_worker env app rounds w).1
  unfolding alert_worker
  alert_worker-RunOutcome rounds w =
      poll_keeps env (claim_pending_notification_job env) (process_notification_job env app)
        RunOutcome (λ w. record { moved = here; held_kept = refl; under_lock = λ h. h })
        (λ u v w a b. record {
          moved = Moves-trans a.moved b.moved;
          held_kept = b.held_kept ∙ a.held_kept;
          under_lock = λ h. b.under_lock (a.under_lock h);
        })
        (λ w. record { moved = here; held_kept = refl; under_lock = λ h. h }) claim-RunOutcome
        process-RunOutcome rounds w
