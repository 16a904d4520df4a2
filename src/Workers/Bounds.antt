-- ===== src/Workers/Bounds.antt =====
-- Bounds of the retry policy, and of the text that is kept of an error.
use cryptopulse_telegram_bot.Prelude.{
  ℕ, suc, ◌-◌, ◌*◌, ◌≤◌, ◌≡◌, inl, inr, true, Option, none, some, arith, min, ltb, ℤ, pos, negsuc,
  leb_ℤ, ltb_ℤ, wrap64, scale, length, length-take, Bool-cases, sym, subst,
}
use cryptopulse_telegram_bot.Bytes.{Bytes}
use cryptopulse_telegram_bot.GoError.{Error, ApiError, as_api}
use cryptopulse_telegram_bot.Workers.{
  second, minute, truncate_error, retry_delay, telegram_retry_delay, longer, honour, honour_seconds,
}

-- The largest number of attempts whose minutes fit into 64 bits.
abbrev pub max_exact_attempts : ℕ
max_exact_attempts = 153_722_867

-- The delay before a retry is the number of attempts in minutes, at least one minute and at most ten,
-- as long as the multiplication does not leave 64 bits.
pub retry_delay_linear :
    (n : ℕ) → suc n ≤ max_exact_attempts → retry_delay (pos (suc n)) ≡ pos (min (suc n) 10 * minute)
unfolding retry_delay
retry_delay_linear n h = ground arith

-- A delay is never longer than ten minutes, also after a wrap-around.
pub retry_delay_le : (attempts : ℤ) → leb_ℤ (retry_delay attempts) (pos (10 * minute)) ≡ true
unfolding retry_delay
retry_delay_le attempts = ground arith

leb_ℤ_refl : (a : ℤ) → leb_ℤ a a ≡ true
leb_ℤ_refl (pos a) = ground arith
leb_ℤ_refl (negsuc a) = ground arith

leb_ℤ-longer : (a b : ℤ) → leb_ℤ b (longer a b) ≡ true
leb_ℤ-longer (pos a) (pos b) = ground arith
leb_ℤ-longer (pos a) (negsuc b) = ground arith
leb_ℤ-longer (negsuc a) (pos b) = ground arith
leb_ℤ-longer (negsuc a) (negsuc b) = ground arith

waits :
    (n : ℕ) (delay : ℤ) → leb_ℤ (pos (suc n * second)) (longer (pos (suc n * second)) delay) ≡ true
waits n (pos d) = ground arith
waits n (negsuc d) = ground arith

honour-waits :
    (delay r : ℤ) (n : ℕ)
    → r ≡ pos (suc n)
    → suc n ≤ 9_223_372_036
    → leb_ℤ (pos (suc n * second)) (honour_seconds delay r) ≡ true
honour-waits delay r n e h =
    subst (λ r'. leb_ℤ (pos (suc n * second)) (honour_seconds delay r') ≡ true) (sym e)
      (elim (Bool-cases (ltb 0 (suc n))) [
        | inl l ↦ rw l (rw exact (waits n delay))
        | inr l ↦ absurd (ground (arith, l))
      ])
  where
    exact : wrap64 (scale (pos (suc n)) (second - 1)) ≡ pos (suc n * second)
    exact = ground arith

honour_seconds_le : (delay r : ℤ) → leb_ℤ delay (honour_seconds delay r) ≡ true
honour_seconds_le delay r = elim (Bool-cases (ltb_ℤ (pos 0) r)) [
  | inl e ↦ ground (arith, e, leb_ℤ-longer (wrap64 (scale r (second - 1))) delay)
  | inr e ↦ ground (arith, e, leb_ℤ_refl delay)
]

-- A wait that the API asks for is honoured: when an error carries a retry_after of 1 to
-- 9223372036 seconds, the delay is at least that long; and for every error the delay is at least the
-- policy's own.
pub telegram_retry_delay-honours :
    (attempts : ℤ) (e : Error)
    → ((a : ApiError) (n : ℕ)
        → as_api e ≡ some a
        → a.retry_after ≡ pos (suc n)
        → suc n ≤ 9_223_372_036
        → leb_ℤ (pos (suc n * second)) (telegram_retry_delay attempts e) ≡ true)
      × (leb_ℤ (retry_delay attempts) (telegram_retry_delay attempts e) ≡ true)
unfolding telegram_retry_delay
telegram_retry_delay-honours attempts e = (asked, kept (as_api e))
  where
    asked :
        (a : ApiError) (n : ℕ)
        → as_api e ≡ some a
        → a.retry_after ≡ pos (suc n)
        → suc n ≤ 9_223_372_036
        → leb_ℤ (pos (suc n * second)) (telegram_retry_delay attempts e) ≡ true
    asked a n h r b =
        subst (λ o. leb_ℤ (pos (suc n * second)) (honour (retry_delay attempts) o) ≡ true) (sym h)
          (honour-waits (retry_delay attempts) a.retry_after n r b)

    kept :
        (o : Option ApiError)
        → leb_ℤ (retry_delay attempts) (honour (retry_delay attempts) o) ≡ true
    kept none = leb_ℤ_refl (retry_delay attempts)
    kept (some a) = honour_seconds_le (retry_delay attempts) a.retry_after

-- A text that is cut fits into the limit.
pub length-truncate_error_le :
    (t : Bytes) (limit : ℕ) → length (truncate_error t (pos (suc limit))) ≤ suc limit
unfolding truncate_error
length-truncate_error_le t limit = ground (arith, length-take (suc limit) t)
