-- ===== src/Telegram.antt =====
-- internal/telegram/catalog.go and alerts.go (texts and the classification of send errors), and the
-- redaction of internal/app/telegram_errors.go. The maps of translations are an argument.
use package.text.Mathlib.Text.{◌==◌ as str_eq}
use cryptopulse_telegram_bot.Prelude.{
  ℕ, ◌+◌, ◌/◌, ◌%◌, String, Bool, true, false, ◌||◌, ◌&&◌, Option, none, some, List, [], ◌∷◌, leb,
  ltb, ◌==◌, if◌then◌else◌,
}
use cryptopulse_telegram_bot.Bytes.{Bytes, bytes, contains, to_lower, replace_all}
use cryptopulse_telegram_bot.GoError.{Error, ApiError, plain, as_api, error_text}

abbrev pub Catalog : Type 0
Catalog = List (String × List (String × Bytes))

unfoldable pub lookup {ℓ} : {V : Type ℓ} → String → List (String × V) → Option V
lookup k [] = none
lookup k ((j, v) ∷ rest) = if str_eq j k then some v else lookup k rest

unfoldable pub allowed_language : String → Bool
allowed_language language = str_eq language "ua" || str_eq language "en" || str_eq language "ru"

-- A missing translation and an empty one count alike.
entry : Option (List (String × Bytes)) → String → Bytes
unfolding lookup
entry none key = []
entry (some texts) key = elim (lookup key texts) [ none ↦ [] | some t ↦ t ]

or_else : Bytes → Bytes → Bytes
or_else [] d = d
or_else (c ∷ t) d = c ∷ t

-- Text(language, key)
unfoldable pub text : Catalog → String → String → Bytes
unfolding entry or_else lookup
text messages language key = or_else (entry (lookup language messages) key) (
    or_else (entry (lookup "ua" messages) key)
      (0xE2 ∷ 0x9A ∷ 0xA0 ∷ 0xEF ∷ 0xB8 ∷ 0x8F ∷ bytes " [Missing Translation]"))

-- AlertText(lang, key)
unfoldable pub alert_text : Catalog → String → String → Bytes
unfolding entry or_else lookup
alert_text messages lang key =
    or_else (entry (lookup lang messages) key) (entry (lookup "ua" messages) key)

permanent_message : Bytes → Bool
permanent_message message =
    contains message (bytes "chat not found") || contains message (bytes "user is deactivated")

permanent_api_error : ApiError → Bool
unfolding permanent_message
permanent_api_error e =
    if e.code == 403
    then true
    else if e.code == 400
    then permanent_message (to_lower e.message)
    else false

permanent_other_error : Bytes → Bool
permanent_other_error message =
    contains message (bytes "chat not found")
    || contains message (bytes "bot was blocked")
    || contains message (bytes "user is deactivated")
    || contains message (bytes "bot can't initiate conversation")

-- IsPermanentSendError(err)
unfoldable pub is_permanent_send_error : Error → Bool
unfolding permanent_api_error permanent_other_error
is_permanent_send_error e = elim (as_api e) [
  | some a ↦ permanent_api_error a
  | none ↦ permanent_other_error (to_lower (error_text e))
]

is_unreserved : ℕ → Bool
is_unreserved c =
    leb b'a' c && leb c b'z'
    || leb b'A' c && leb c b'Z'
    || leb b'0' c && leb c b'9'
    || c == b'-'
    || c == b'_'
    || c == b'.'
    || c == b'~'

hex_digit : ℕ → ℕ
hex_digit n = if ltb n 10 then n + 48 else n + 55

percent_encode : ℕ → Bytes → Bytes
unfolding hex_digit
percent_encode c rest = b'%' ∷ hex_digit (c / 16) ∷ hex_digit (c % 16) ∷ rest

-- Of the reserved characters url.PathEscape leaves $ & + : = @ as they are.
path_escape : Bytes → Bytes
unfolding is_unreserved percent_encode
path_escape [] = []
path_escape (c ∷ rest) =
    let escaped = path_escape rest in
    if is_unreserved c || c == b'$' || c == b'&' || c == b'+' || c == b':' || c == b'=' || c == b'@'
    then c ∷ escaped
    else percent_encode c escaped

query_escape : Bytes → Bytes
unfolding is_unreserved percent_encode
query_escape [] = []
query_escape (c ∷ rest) =
    let escaped = query_escape rest in
    if is_unreserved c
    then c ∷ escaped
    else if c == b' '
    then b'+' ∷ escaped
    else percent_encode c escaped

replace_value : Bytes → Bytes → Bytes
replace_value message [] = message
replace_value message (c ∷ value) = replace_all message (c ∷ value) (bytes "[REDACTED]")

-- redactTelegramError(err, token), for an error that is not nil.
unfoldable pub redact_telegram_error : Error → Bytes → Error
unfolding replace_value path_escape query_escape
redact_telegram_error e [] = e
redact_telegram_error e (c ∷ rest) =
    let token = c ∷ rest in
    plain (
      replace_value (replace_value (replace_value (error_text e) token) (path_escape token))
        (query_escape token))
