-- ===== src/Float/Rounding.antt =====
-- How far rounding moves a quotient.
use cryptopulse_telegram_bot.Prelude.{
  ℕ, ◌+◌, ◌*◌, ◌/◌, ◌%◌, ◌≤◌, ◌<◌, ◌≡◌, arith, ◌&&◌, ◌||◌, ltb, ◌==◌, Bool-cases, inl, inr,
}
use native.Mathlib.Nat.{mod-add-div', mod-lt}
use cryptopulse_telegram_bot.Float.{divide_even}

near_up :
    (n d q r : ℕ)
    → r + q * d ≡ n
    → r < d
    → d ≤ 2 * r
    → (2 * n ≤ (2 * (q + 1) + 1) * d) × (2 * (q + 1) * d ≤ 2 * n + d)
near_up n d q r e lt half = (grind arith, grind arith)

near_down :
    (n d q r : ℕ)
    → r + q * d ≡ n
    → r < d
    → 2 * r ≤ d
    → (2 * n ≤ (2 * q + 1) * d) × (2 * q * d ≤ 2 * n + d)
near_down n d q r e lt half = (grind arith, grind arith)

-- For a positive divisor, rounding to the nearest integer, ties to even, moves a quotient by at most a
-- half.
pub divide_even_near :
    (n d : ℕ)
    → 0 < d
    → (2 * n ≤ (2 * divide_even n d + 1) * d) × (2 * divide_even n d * d ≤ 2 * n + d)
unfolding divide_even
divide_even_near n d h =
    elim (Bool-cases (ltb d (2 * (n % d)) || (2 * (n % d) == d && n / d % 2 == 1))) [
      | inl e ↦
          rw e (near_up n d (n / d) (n % d) (mod-add-div' n d) (mod-lt n h) (ground (arith, e)))
      | inr e ↦
          rw e (near_down n d (n / d) (n % d) (mod-add-div' n d) (mod-lt n h) (ground (arith, e)))
    ]
