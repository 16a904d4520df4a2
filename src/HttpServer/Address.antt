-- ===== src/HttpServer/Address.antt =====
-- ClientKey of internal/httpserver/httpserver.go, with net.SplitHostPort.
use cryptopulse_telegram_bot.Prelude.{
  ℕ, suc, ◌-◌, Bool, ◌||◌, Option, none, some, [], ◌∷◌, ◌==◌, any, take, drop, if◌then◌else◌,
}
use cryptopulse_telegram_bot.Bytes.{Bytes, bytes}

-- strings.LastIndexByte(text, c) and strings.IndexByte(text, c)
unfoldable pub last_index : ℕ → Bytes → Option ℕ
last_index c [] = none
last_index c (b ∷ text) = elim (last_index c text) [
  | some i ↦ some (suc i)
  | none ↦ if b == c then some 0 else none
]

unfoldable pub index_byte : ℕ → Bytes → Option ℕ
index_byte c [] = none
index_byte c (b ∷ text) =
    let rest = index_byte c text in
    if b == c then some 0 else elim rest [ none ↦ none | some i ↦ some (suc i) ]

abbrev pub has_byte : ℕ → Bytes → Bool
has_byte c text = any (λ b. b == c) text

abbrev pub checked_host : Bytes → Bytes → Bytes → Option Bytes
checked_host host opened closed =
    if has_byte b'[' opened || has_byte b']' closed then none else some host

-- An address in brackets: the bracket is closed just before the last colon.
abbrev pub bracketed : ℕ → Bytes → Option ℕ → Option Bytes
bracketed i text none = none
bracketed i text (some end) =
    if suc end == i
    then checked_host (take (end - 1) (drop 1 text)) (drop 1 text) (drop (suc end) text)
    else none

abbrev pub unbracketed : ℕ → Bytes → Option Bytes
unbracketed i text =
    let host = take i text in if has_byte b':' host then none else checked_host host text text

abbrev pub split_at : Bytes → Option ℕ → Option Bytes
split_at text none = none
split_at [] (some i) = none
split_at (c ∷ text) (some i) =
    if c == b'['
    then bracketed i (c ∷ text) (index_byte b']' (c ∷ text))
    else unbracketed i (c ∷ text)

-- The host that net.SplitHostPort returns, or none for an error.
unfoldable pub split_host_port : Bytes → Option Bytes
unfolding last_index index_byte
split_host_port address = split_at address (last_index b':' address)

abbrev whole_address : Bytes → Bytes
whole_address [] = bytes "unknown"
whole_address (c ∷ address) = c ∷ address

abbrev pub host_or : Bytes → Option Bytes → Bytes
host_or address none = whole_address address
host_or address (some []) = whole_address address
host_or address (some (c ∷ host)) = c ∷ host

-- ClientKey
unfoldable pub client_key : Bytes → Bytes
unfolding split_host_port
client_key remote_addr = host_or remote_addr (split_host_port remote_addr)
