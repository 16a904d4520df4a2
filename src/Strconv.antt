-- ===== src/Strconv.antt =====
-- strconv.Atoi and strings.ToUpper, as far as the code uses them.
pub mod Printing
use cryptopulse_telegram_bot.Prelude.{
  ℕ, ◌-◌, ◌+◌, ◌*◌, ◌^◌, Bool, ◌&&◌, Option, none, some, List, [], ◌∷◌, ltb, leb, ◌==◌, ℤ, pos,
  negsuc, if◌then◌else◌,
}
use cryptopulse_telegram_bot.Bytes.{Bytes}

-- strconv.Atoi: digits, at least one, with an optional sign; none stands for an error.
pub digits_value : ℕ → Bytes → Option ℕ
digits_value n [] = some n
digits_value n (c ∷ cs) =
    let rest = digits_value (n * 10 + (c - b'0')) cs in
    if leb b'0' c && leb c b'9' then rest else none

pub some_digits : Bytes → Option ℕ
unfolding digits_value
some_digits [] = none
some_digits (c ∷ cs) = digits_value 0 (c ∷ cs)

abbrev pub positive : Option ℕ → Option ℤ
positive none = none
positive (some n) = if ltb n (2 ^ 63) then some (pos n) else none

abbrev pub negative : Option ℕ → Option ℤ
negative none = none
negative (some n) =
    if n == 0 then some (pos 0) else if leb n (2 ^ 63) then some (negsuc (n - 1)) else none

unfoldable pub atoi : Bytes → Option ℤ
unfolding some_digits
atoi [] = none
atoi (c ∷ cs) =
    if c == b'-'
    then negative (some_digits cs)
    else if c == b'+'
    then positive (some_digits cs)
    else positive (some_digits (c ∷ cs))

abbrev upper_byte : ℕ → ℕ
upper_byte b = if leb b'a' b && leb b b'z' then b - 32 else b

-- strings.ToUpper, as far as a comparison with ASCII letters other than I can tell: beyond ASCII only
-- the long s (U+017F) has such an upper case.
unfoldable pub to_upper : Bytes → Bytes
to_upper [] = []
to_upper (c ∷ []) = upper_byte c ∷ []
to_upper (c ∷ d ∷ text) =
    let long_s = b'S' ∷ to_upper text in
    let letter = upper_byte c ∷ to_upper (d ∷ text) in
    if c == 0xC5 && d == 0xBF then long_s else letter
