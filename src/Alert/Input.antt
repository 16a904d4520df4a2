-- ===== src/Alert/Input.antt =====
-- alertSymbol, parseAlertPercent and alertTarget. A percentage is in hundredths: the pattern admits two
-- decimals, and math.Round(percent*100) gives the hundredths back.
use cryptopulse_telegram_bot.Prelude.{
  ℕ, zero, suc, ◌+◌, ◌-◌, ◌*◌, Bool, true, false, not, ◌&&◌, ◌||◌, Option, none, some, [], ◌∷◌,
  ◌++◌, leb, ◌==◌, ℤ, pos, negsuc, ltb_ℤ, eqb_ℤ, if◌then◌else◌, length, take, drop,
}
use cryptopulse_telegram_bot.Bytes.{Bytes, bytes, bytes_eq}
use cryptopulse_telegram_bot.Strconv.{to_upper}
use cryptopulse_telegram_bot.Pricing.{is_valid_market_price}
use cryptopulse_telegram_bot.Float.{times, divided_by}

-- strings.HasSuffix and strings.TrimSuffix
abbrev pub has_suffix : Bytes → Bytes → Bool
has_suffix text suffix =
    leb (length suffix) (length text) && bytes_eq (drop (length text - length suffix) text) suffix

abbrev pub trim_suffix : Bytes → Bytes → Bytes
trim_suffix text suffix =
    if has_suffix text suffix then take (length text - length suffix) text else text

abbrev is_coin : Bytes → Bool
is_coin symbol =
    bytes_eq symbol (bytes "BTCUSDT")
    || bytes_eq symbol (bytes "ETHUSDT")
    || bytes_eq symbol (bytes "SOLUSDT")
    || bytes_eq symbol (bytes "BNBUSDT")

abbrev with_usdt : Bytes → Bytes
with_usdt symbol = if has_suffix symbol (bytes "USDT") then symbol else symbol ++ bytes "USDT"

unfoldable pub alert_symbol : Bytes → Option Bytes
unfolding to_upper
alert_symbol raw =
    let symbol = with_usdt (to_upper raw) in if is_coin symbol then some symbol else none

abbrev is_digit : ℕ → Bool
is_digit c = leb b'0' c && leb c b'9'

-- The digits in front of a text, at most `most` of them: their value, how many, and the rest.
unfoldable pub leading_digits : ℕ → ℕ → ℕ → Bytes → (ℕ × ℕ) × Bytes
leading_digits zero count value text = ((value, count), text)
leading_digits (suc most) count value [] = ((value, count), [])
leading_digits (suc most) count value (c ∷ text) =
    let more = leading_digits most (suc count) (value * 10 + (c - b'0')) text in
    if is_digit c then more else ((value, count), c ∷ text)

-- %?$
abbrev at_end : Bytes → Bool
at_end [] = true
at_end (c ∷ []) = c == b'%'
at_end (c ∷ d ∷ text) = false

-- ([.,][0-9]{1,2})?%?$ after the whole percents: the hundredths.
unfoldable pub decimals : ℕ → Bytes → Option ℕ
unfolding leading_digits
decimals whole [] = some (whole * 100)
decimals whole (c ∷ text) =
    let ((value, count), rest) = leading_digits 2 0 0 text in
    if not (c == b'.' || c == b',')
    then (if at_end (c ∷ text) then some (whole * 100) else none)
    else if count == 0 || not (at_end rest)
    then none
    else some (whole * 100 + (if count == 1 then value * 10 else value))

-- [0-9]{1,4} and the rest of the pattern
unfoldable pub unsigned_percent : Bytes → Option ℕ
unfolding leading_digits decimals
unsigned_percent text =
    let ((value, count), rest) = leading_digits 4 0 0 text in
    if count == 0 then none else decimals value rest

abbrev pub minus : ℕ → ℤ
minus zero = pos 0
minus (suc n) = negsuc n

abbrev signed : (ℕ → ℤ) → Option ℕ → Option ℤ
signed sign none = none
signed sign (some n) = some (sign n)

unfoldable pub percent_pattern : Bytes → Option ℤ
unfolding unsigned_percent
percent_pattern [] = none
percent_pattern (c ∷ text) =
    if c == b'-'
    then signed minus (unsigned_percent text)
    else if c == b'+'
    then signed pos (unsigned_percent text)
    else signed pos (unsigned_percent (c ∷ text))

-- percent == 0 || percent < -99.99 || percent > 1000
abbrev pub out_of_range : ℤ → Bool
out_of_range k = eqb_ℤ k (pos 0) || ltb_ℤ k (minus 9999) || ltb_ℤ (pos 100_000) k

abbrev in_range : Option ℤ → Option ℤ
in_range none = none
in_range (some k) = if out_of_range k then none else some k

unfoldable pub parse_alert_percent : Bytes → Option ℤ
unfolding percent_pattern
parse_alert_percent raw = in_range (percent_pattern raw)

-- 10000 + math.Round(percent*100) of a percentage in range
abbrev pub factor : ℤ → ℕ
factor (pos k) = 10_000 + k
factor (negsuc k) = 10_000 - suc k

abbrev pub wrong_direction : ℕ → ℤ → ℕ → Bool
wrong_direction base k target =
    (ltb_ℤ (pos 0) k && leb target base) || (ltb_ℤ k (pos 0) && leb base target)

unfoldable pub alert_target : ℕ → ℤ → Option ℕ
unfolding is_valid_market_price
alert_target base percent =
    let target = divided_by (times base (factor percent)) 10_000 in
    if not (is_valid_market_price base) || out_of_range percent
    then none
    else if not (is_valid_market_price target) || wrong_direction base percent target
    then none
    else some target
