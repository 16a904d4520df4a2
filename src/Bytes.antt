-- ===== src/Bytes.antt =====
-- Text as the list of its bytes, and what the code uses of Go's strings and strconv packages on it.
pub mod Equality
use Prim.Native.Char.{code}
use cryptopulse_telegram_bot.Prelude.{
  ℕ, zero, suc, ◌+◌, ◌-◌, ◌/◌, ◌%◌, String, Bool, true, false, ◌&&◌, ◌||◌, List, [], ◌∷◌, ◌++◌, leb,
  ltb, length, ◌==◌, if◌then◌else◌, ℤ, pos, negsuc,
}

abbrev pub Bytes : Type 0
Bytes = List ℕ

-- The bytes of an ASCII literal.
abbrev pub bytes : String → Bytes
bytes String.[] = []
bytes (String.◌∷◌ c s) = code c ∷ bytes s

abbrev pub bytes_eq : Bytes → Bytes → Bool
bytes_eq [] [] = true
bytes_eq [] (y ∷ ys) = false
bytes_eq (x ∷ xs) [] = false
bytes_eq (x ∷ xs) (y ∷ ys) = x == y && bytes_eq xs ys

-- strings.HasPrefix(text, prefix)
abbrev pub has_prefix : Bytes → Bytes → Bool
has_prefix text [] = true
has_prefix [] (p ∷ prefix) = false
has_prefix (c ∷ text) (p ∷ prefix) = c == p && has_prefix text prefix

-- strings.Contains(text, needle)
unfoldable pub contains : Bytes → Bytes → Bool
contains [] needle = has_prefix [] needle
contains (c ∷ text) needle = has_prefix (c ∷ text) needle || contains text needle

-- strings.ReplaceAll(text, old, new) for a non-empty `old`, from left to right: `skip` bytes of the
-- occurrence found last are still to be passed over.
replace_from : Bytes → Bytes → ℕ → Bytes → Bytes
replace_from old new skip [] = []
replace_from old new (suc k) (c ∷ text) = replace_from old new k text
replace_from old new zero (c ∷ text) =
    let found = new ++ replace_from old new (length old - 1) text in
    let missed = c ∷ replace_from old new 0 text in
    if has_prefix (c ∷ text) old then found else missed

unfoldable pub replace_all : Bytes → Bytes → Bytes → Bytes
unfolding replace_from
replace_all text old new = replace_from old new 0 text

lower_byte : ℕ → ℕ
lower_byte b = if leb b'A' b && leb b b'Z' then b + 32 else b

-- strings.ToLower, as far as a search for ASCII letters can tell: the two code points beyond ASCII
-- with an ASCII lower case are the Kelvin sign (U+212A) and the dotted capital I (U+0130).
unfoldable pub to_lower : Bytes → Bytes
unfolding lower_byte
to_lower [] = []
to_lower (c ∷ []) = lower_byte c ∷ []
to_lower (c ∷ d ∷ []) =
    if c == 0xC4 && d == 0xB0 then b'i' ∷ [] else lower_byte c ∷ to_lower (d ∷ [])
to_lower (c ∷ d ∷ e ∷ text) =
    let dotted_i = b'i' ∷ to_lower (e ∷ text) in
    let kelvin = b'k' ∷ to_lower text in
    let letter = lower_byte c ∷ to_lower (d ∷ e ∷ text) in
    if c == 0xC4 && d == 0xB0
    then dotted_i
    else if c == 0xE2 && d == 0x84 && e == 0xAA
    then kelvin
    else letter

-- The decimal digits of a number in front of `rest`; `fuel` bounds their count.
unfoldable pub digits_from : ℕ → ℕ → Bytes → Bytes
digits_from zero n rest = rest
digits_from (suc fuel) n rest =
    let more = digits_from fuel (n / 10) ((n % 10 + 48) ∷ rest) in
    if ltb n 10 then (n + 48) ∷ rest else more

-- strconv.FormatInt(n, 10) of a 64-bit integer, which has at most 19 digits.
unfoldable pub format_int : ℤ → Bytes
unfolding digits_from
format_int (pos n) = digits_from 20 n []
format_int (negsuc n) = b'-' ∷ digits_from 20 (n + 1) []
