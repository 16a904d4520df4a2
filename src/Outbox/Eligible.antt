-- ===== src/Outbox/Eligible.antt =====
-- When a row of an outbox or of the inbox may be claimed.
use cryptopulse_telegram_bot.Prelude.{
  ℕ, ◌≤◌, ◌<◌, ◌≡◌, ◌⊎◌, inl, inr, refl, arith, true, ◌&&◌, ◌||◌, Option, none, some, leb,
}
use cryptopulse_telegram_bot.Schema.{
  JobStatus, UpdateStatus, is_open, is_pending, is_waiting, is_processing,
}
use cryptopulse_telegram_bot.Notification.Jobs.{lease_ended}

-- A lease that was given is over.
abbrev pub HasEnded : Option ℕ → ℕ → Type 0
HasEnded lease now = (lease ≡ none) ⊎ ((until : ℕ) × (lease ≡ some until) × (until < now))

-- Pending, or being sent by a worker whose lease is over; and the next attempt is due.
pub record Eligible (status : JobStatus) (next_attempt_at : ℕ) (lease : Option ℕ) (now : ℕ)
    : Type 0 where
  pub due : next_attempt_at ≤ now
  pub free : (status ≡ JobStatus.pending) ⊎ ((status ≡ JobStatus.sending) × HasEnded lease now)

lease_ended-HasEnded :
    (lease : Option ℕ) (now : ℕ) → lease_ended lease now ≡ true → HasEnded lease now
lease_ended-HasEnded none now h = inl refl
lease_ended-HasEnded (some until) now h = inr (until, refl, ground (arith, h))

pub claimable-Eligible :
    (status : JobStatus) (next_attempt_at : ℕ) (lease : Option ℕ) (now : ℕ)
    → (is_open status && leb next_attempt_at now && (is_pending status || lease_ended lease now))
      ≡ true
    → Eligible status next_attempt_at lease now
claimable-Eligible JobStatus.pending next lease now h = record {
  due = ground (arith, h);
  free = inl refl;
}
claimable-Eligible JobStatus.sending next lease now h = record {
  due = ground (arith, h);
  free = inr (refl, lease_ended-HasEnded lease now (ground (arith, h)));
}
claimable-Eligible JobStatus.sent next lease now h = absurd (ground (arith, h))
claimable-Eligible JobStatus.failed next lease now h = absurd (ground (arith, h))
claimable-Eligible JobStatus.canceled next lease now h = absurd (ground (arith, h))

-- The same of an update
pub record UpdateEligible (status : UpdateStatus) (next_attempt_at : ℕ) (lease : Option ℕ) (now : ℕ)
    : Type 0 where
  pub due : next_attempt_at ≤ now
  pub free :
      (status ≡ UpdateStatus.pending) ⊎ ((status ≡ UpdateStatus.processing) × HasEnded lease now)

pub claimable-UpdateEligible :
    (status : UpdateStatus) (next_attempt_at : ℕ) (lease : Option ℕ) (now : ℕ)
    → ((is_waiting status || is_processing status)
        && leb next_attempt_at now
        && (is_waiting status || lease_ended lease now))
      ≡ true
    → UpdateEligible status next_attempt_at lease now
claimable-UpdateEligible UpdateStatus.pending next lease now h = record {
  due = ground (arith, h);
  free = inl refl;
}
claimable-UpdateEligible UpdateStatus.processing next lease now h = record {
  due = ground (arith, h);
  free = inr (refl, lease_ended-HasEnded lease now (ground (arith, h)));
}
claimable-UpdateEligible UpdateStatus.processed next lease now h = absurd (ground (arith, h))
claimable-UpdateEligible UpdateStatus.failed next lease now h = absurd (ground (arith, h))
