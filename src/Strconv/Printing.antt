-- ===== src/Strconv/Printing.antt =====
-- What is printed as a decimal number is read back.
use native.Mathlib.Nat.{pow-suc}
use cryptopulse_telegram_bot.Prelude.{
  ℕ, zero, suc, ◌+◌, ◌-◌, ◌*◌, ◌/◌, ◌%◌, ◌^◌, ◌<◌, ◌≡◌, ◌∙◌, ap, inl, inr, arith, true, false, ◌&&◌,
  Option, none, some, [], ◌∷◌, ltb, leb, ◌==◌, Bool-cases, ℤ, pos, if◌then◌else◌,
}
use cryptopulse_telegram_bot.Bytes.{Bytes, format_int, digits_from}
use cryptopulse_telegram_bot.Strconv.{atoi, digits_value, some_digits, positive, negative}

-- A digit in front is read.
digit_read :
    (n m : ℕ) (rest : Bytes)
    → m < 10
    → digits_value n ((m + 48) ∷ rest) ≡ digits_value (n * 10 + m) rest
unfolding digits_value
digit_read n m rest h =
    ap (λ b. if b then digits_value (n * 10 + (m + 48 - 48)) rest else none) in_digits
    ∙ ap (λ k. digits_value (n * 10 + k) rest) back
  where
    in_digits : (leb 48 (m + 48) && leb (m + 48) 57) ≡ true
    in_digits = ground (arith, h)

    back : m + 48 - 48 ≡ m
    back = omega arith

digits_read :
    (fuel n : ℕ) (rest : Bytes)
    → n < 10 ^ fuel
    → digits_value 0 (digits_from fuel n rest) ≡ digits_value n rest
unfolding digits_from
digits_read zero n rest h = ap (λ k. digits_value k rest) (below_one n h)
  where
    below_one : (n : ℕ) → n < 10 ^ 0 → 0 ≡ n
    below_one n h = omega (arith, h)
digits_read (suc fuel) n rest h = elim (Bool-cases (ltb n 10)) [
  | inl e ↦
      rw e (digit_read 0 n rest (ground (arith, e)) ∙ ap (λ k. digits_value k rest) (omega arith))
  | inr e ↦ rw e (
      digits_read fuel (n / 10) ((n % 10 + 48) ∷ rest) (omega (arith, h, pow-suc 10 fuel))
      ∙ digit_read (n / 10) (n % 10) rest (omega arith)
      ∙ ap (λ k. digits_value k rest) whole)
]
  where
    whole : n / 10 * 10 + n % 10 ≡ n
    whole = omega arith

-- The text of a number begins with a digit.
data DigitFirst : Bytes → Type 0 where
  digit_first : (m : ℕ) (rest : Bytes) → m < 10 → DigitFirst ((m + 48) ∷ rest)

digits_from-DigitFirst :
    (fuel n : ℕ) (rest : Bytes) → DigitFirst rest → DigitFirst (digits_from fuel n rest)
unfolding digits_from
digits_from-DigitFirst zero n rest d = d
digits_from-DigitFirst (suc fuel) n rest d = elim (Bool-cases (ltb n 10)) [
  | inl e ↦ rw e (digit_first n rest (ground (arith, e)))
  | inr e ↦ rw e (digits_from-DigitFirst fuel (n / 10) _ (digit_first (n % 10) rest (omega arith)))
]

digits_from_20-DigitFirst : (n : ℕ) → DigitFirst (digits_from 20 n [])
unfolding digits_from
digits_from_20-DigitFirst n = elim (Bool-cases (ltb n 10)) [
  | inl e ↦ rw e (digit_first n [] (ground (arith, e)))
  | inr e ↦ rw e (digits_from-DigitFirst 19 (n / 10) _ (digit_first (n % 10) [] (omega arith)))
]

atoi-DigitFirst : (t : Bytes) → DigitFirst t → atoi t ≡ positive (digits_value 0 t)
unfolding atoi some_digits
atoi-DigitFirst t (digit_first m rest h) =
    ap (λ b. if b then negative (some_digits rest) else unsigned) no_minus
    ∙ ap
        (λ b.
          if b then positive (some_digits rest) else positive (digits_value 0 ((m + 48) ∷ rest)))
        no_plus
  where
    unsigned : Option ℤ
    unsigned =
        if m + 48 == b'+'
        then positive (some_digits rest)
        else positive (digits_value 0 ((m + 48) ∷ rest))

    no_minus : (m + 48 == b'-') ≡ false
    no_minus = ground (arith, h)

    no_plus : (m + 48 == b'+') ≡ false
    no_plus = ground (arith, h)

-- An integer from 0 to the greatest of 64 bits is read back by strconv.Atoi as it was printed.
pub atoi-format_int : (n : ℕ) → n < 2 ^ 63 → atoi (format_int (pos n)) ≡ some (pos n)
unfolding format_int digits_value
atoi-format_int n h =
    atoi-DigitFirst (digits_from 20 n []) (digits_from_20-DigitFirst n)
    ∙ ap positive (digits_read 20 n [] (omega (arith, h)))
    ∙ in_range
  where
    in_range : (if ltb n (2 ^ 63) then some (pos n) else none) ≡ some (pos n)
    in_range = ground (arith, h)
