-- ===== src/Float.antt =====
-- The IEEE 754 arithmetic that the alerts use, on the bit patterns of positive float64 values: a value
-- is a number of units of 2^-1074, and an operation rounds its exact result to nearest, ties to even.
pub mod Rounding
use cryptopulse_telegram_bot.Prelude.{
  ℕ, zero, suc, ◌+◌, ◌-◌, ◌*◌, ◌/◌, ◌%◌, ◌^◌, Bool, ◌&&◌, ◌||◌, ltb, leb, ◌==◌, if◌then◌else◌,
}

abbrev pub half_scale : ℕ
half_scale = 2 ^ 52

-- The bit pattern of +Inf.
abbrev pub infinity : ℕ
infinity = 0x7FF * 2 ^ 52

-- The value of a positive finite float64 in units of 2^-1074.
unfoldable pub units : ℕ → ℕ
units bits = if bits / 2 ^ 52 == 0 then bits else (2 ^ 52 + bits % 2 ^ 52) * 2 ^ (bits / 2 ^ 52 - 1)

-- How many times a number is halved until it is below 2^53; `fuel` bounds the halvings.
unfoldable pub excess : ℕ → ℕ → ℕ
excess zero n = 0
excess (suc fuel) n = let rest = excess fuel (n / 2) in if ltb n (2 ^ 53) then 0 else suc rest

-- The quotient of two numbers rounded to the nearest integer, ties to even.
unfoldable pub divide_even : ℕ → ℕ → ℕ
divide_even n d =
    let q = n / d in
    let r = n % d in if ltb d (2 * r) || (2 * r == d && q % 2 == 1) then q + 1 else q

-- The float64 nearest to n / d units. More than 2098 + 64 bits do not occur: a product of a finite
-- value with a factor below 2^64 has fewer. Beyond the largest finite value it is +Inf.
unfoldable pub nearest : ℕ → ℕ → ℕ
unfolding excess divide_even
nearest n d =
    let s = excess 2200 (n / d) in
    let bits = s * 2 ^ 52 + divide_even n (d * 2 ^ s) in
    if ltb bits infinity then bits else infinity

-- The product with a positive integer and the quotient by one, of a positive finite value; an infinite
-- value stays infinite.
unfoldable pub times : ℕ → ℕ → ℕ
unfolding nearest units
times bits k = if leb infinity bits then infinity else nearest (units bits * k) 1

unfoldable pub divided_by : ℕ → ℕ → ℕ
unfolding nearest units
divided_by bits k = if leb infinity bits then infinity else nearest (units bits) k
