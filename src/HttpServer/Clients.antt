-- ===== src/HttpServer/Clients.antt =====
-- Which requests count as one client.
use cryptopulse_telegram_bot.Prelude.{
  ℕ, suc, ◌≡◌, refl, ap, ◌∙◌, arith, Bool, true, false, ◌||◌, inl, inr, Option, none, some, [], ◌∷◌,
  ◌++◌, ◌==◌, take, drop, length, Bool-cases, if◌then◌else◌,
}
use cryptopulse_telegram_bot.Bytes.{Bytes}
use cryptopulse_telegram_bot.HttpServer.Address.{
  last_index, index_byte, has_byte, split_host_port, client_key, host_or, split_at, unbracketed,
}

has_byte-append : (c : ℕ) (xs ys : Bytes) → has_byte c (xs ++ ys) ≡ (has_byte c xs || has_byte c ys)
has_byte-append c [] ys = refl
has_byte-append c (x ∷ xs) ys = ground (arith, has_byte-append c xs ys)

last_index-none : (c : ℕ) (text : Bytes) → has_byte c text ≡ false → last_index c text ≡ none
unfolding last_index
last_index-none c [] h = refl
last_index-none c (b ∷ text) h = rw (last_index-none c text (ground (arith, h))) (ground (arith, h))

last_index-append :
    (c : ℕ) (host rest : Bytes)
    → has_byte c rest ≡ false
    → last_index c (host ++ c ∷ rest) ≡ some (length host)
unfolding last_index
last_index-append c [] rest h = rw (last_index-none c rest h) (ground arith)
last_index-append c (b ∷ host) rest h = rw (last_index-append c host rest h) refl

index_byte-append :
    (c : ℕ) (host rest : Bytes)
    → has_byte c host ≡ false
    → index_byte c (host ++ c ∷ rest) ≡ some (length host)
unfolding index_byte
index_byte-append c [] rest h = ground arith
index_byte-append c (b ∷ host) rest h = elim (Bool-cases (b == c)) [
  | inl e ↦ absurd (ground (arith, e, h))
  | inr e ↦ rw e (rw (index_byte-append c host rest (ground (arith, e, h))) refl)
]

take-append : (xs ys : Bytes) → take (length xs) (xs ++ ys) ≡ xs
take-append [] ys = refl
take-append (x ∷ xs) ys = ap (λ t. x ∷ t) (take-append xs ys)

drop-append : (xs ys : Bytes) → drop (length xs) (xs ++ ys) ≡ ys
drop-append [] ys = refl
drop-append (x ∷ xs) ys = drop-append xs ys

-- No colon and no bracket.
abbrev pub IsPlain : Bytes → Type 0
IsPlain text =
    (has_byte b':' text ≡ false) × (has_byte b'[' text ≡ false) × (has_byte b']' text ≡ false)

plain_append :
    (c : ℕ) (host port : Bytes)
    → has_byte c host ≡ false
    → has_byte c port ≡ false
    → (b':' == c) ≡ false
    → has_byte c (host ++ b':' ∷ port) ≡ false
plain_append c host port h p n = has_byte-append c host (b':' ∷ port) ∙ rw (h, n, p) refl

unbracketed_plain :
    (host port : Bytes)
    → IsPlain host
    → IsPlain port
    → unbracketed (length host) (host ++ b':' ∷ port) ≡ some host
unbracketed_plain host port h p = rw (take-append host (b':' ∷ port)) (
    rw h.0 (
      rw (plain_append b'[' host port h.1 p.1 refl, plain_append b']' host port h.2 p.2 refl) refl))

-- A client is its host, whatever port its connection comes from: for a host that is not empty, without
-- colons and brackets, and a port without them, in the form host:port.
pub client_key_port :
    (c : ℕ) (host port : Bytes)
    → IsPlain (c ∷ host)
    → IsPlain port
    → client_key (c ∷ host ++ b':' ∷ port) ≡ c ∷ host
unfolding client_key split_host_port
client_key_port c host port h p =
    ap (λ o. host_or (c ∷ host ++ b':' ∷ port) (split_at (c ∷ host ++ b':' ∷ port) o))
      (last_index-append b':' (c ∷ host) port p.0)
    ∙ chosen (c == b'[') _ (ground (arith, h.1))
  where
    chosen :
        (b : Bool) (x : Option Bytes)
        → b ≡ false
        → host_or
            (c ∷ host ++ b':' ∷ port)
            (if b then x else unbracketed (suc (length host)) (c ∷ host ++ b':' ∷ port))
          ≡ c ∷ host
    chosen true x e = absurd (ground (arith, e))
    chosen false x e =
        ap (host_or (c ∷ host ++ b':' ∷ port)) (unbracketed_plain (c ∷ host) port h p)
