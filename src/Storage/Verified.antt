-- ===== src/Storage/Verified.antt =====
-- What VerifySchema finds.
use cryptopulse_telegram_bot.Prelude.{
  ◌≡◌, ◌↔◌, refl, sym, ap, ◌∙◌, Bool, true, false, not, Option, none, some, List, [], ◌∷◌, ◌++◌,
  All, Bool-cases, inl, inr, if◌then◌else◌,
}
use cryptopulse_telegram_bot.Bytes.{Bytes, bytes}
use cryptopulse_telegram_bot.GoError.{Error, plain}
use cryptopulse_telegram_bot.Storage.Catalog.{
  SchemaObject, table, index, column, constraint, join_names, reported, verify_schema,
}

-- How an object is called in the report.
abbrev pub name_of : SchemaObject → Bytes
name_of (table t) = bytes "table " ++ t
name_of (index i) = bytes "index " ++ i
name_of (column t c) = bytes "column " ++ t ++ bytes "." ++ c
name_of (constraint c) = bytes "constraint " ++ c

-- What this version of the service needs.
abbrev pub needed : List SchemaObject
needed =
    table (bytes "subscribers")
    ∷ table (bytes "market_prices")
    ∷ table (bytes "notification_jobs")
    ∷ table (bytes "telegram_updates")
    ∷ table (bytes "telegram_replies")
    ∷ table (bytes "price_alerts")
    ∷ table (bytes "price_alert_crossings")
    ∷ table (bytes "telegram_mutation_versions")
    ∷ table (bytes "telegram_update_stream")
    ∷ column (bytes "telegram_updates") (bytes "stream_epoch")
    ∷ index (bytes "notification_jobs_one_per_price_alert")
    ∷ column (bytes "subscribers") (bytes "delivery_suspended_until")
    ∷ column (bytes "notification_jobs") (bytes "claim_token")
    ∷ column (bytes "notification_jobs") (bytes "canceled_at")
    ∷ column (bytes "telegram_updates") (bytes "shard_id")
    ∷ constraint (bytes "market_prices_price_check")
    ∷ []

abbrev pub names_missing : (SchemaObject → Bool) → List SchemaObject → List Bytes
names_missing exists [] = []
names_missing exists (o ∷ objects) =
    let rest = names_missing exists objects in if not (exists o) then name_of o ∷ rest else rest

-- The names with a comma and a space between each and the next.
abbrev pub followed : List Bytes → Bytes
followed [] = []
followed (n ∷ names) = bytes ", " ++ n ++ followed names

-- What is said when the objects of these names are missing.
abbrev pub described : List Bytes → Option Error
described [] = none
described (n ∷ names) =
    some
      (plain (bytes "missing required database objects after migration: " ++ (n ++ followed names)))

append_nil : (bs : Bytes) → bs ++ [] ≡ bs
append_nil [] = refl
append_nil (b ∷ bs) = ap (λ r. b ∷ r) (append_nil bs)

append_assoc : (xs bs cs : Bytes) → (xs ++ bs) ++ cs ≡ xs ++ (bs ++ cs)
append_assoc [] bs cs = refl
append_assoc (x ∷ xs) bs cs = ap (λ r. x ∷ r) (append_assoc xs bs cs)

join_names-followed :
    (n : Bytes) (names : List Bytes) → join_names (n ∷ names) ≡ n ++ followed names
join_names-followed n [] = sym (append_nil n)
join_names-followed n (m ∷ names) =
    ap (λ r. (n ++ bytes ", ") ++ r) (join_names-followed m names)
    ∙ append_assoc n (bytes ", ") (m ++ followed names)

reported-described : (names : List Bytes) → reported names ≡ described names
reported-described [] = refl
reported-described (n ∷ names) =
    ap (λ r. some (plain (bytes "missing required database objects after migration: " ++ r)))
      (join_names-followed n names)

none_missing :
    (exists : SchemaObject → Bool) (objects : List SchemaObject)
    → (reported (names_missing exists objects) ≡ none) ↔ All (λ o. exists o ≡ true) objects
none_missing exists [] = (λ h. tt, λ h. refl)
none_missing exists (o ∷ objects) = elim (Bool-cases (exists o)) [
  | inl e ↦
      let rest = none_missing exists objects in
      (rw e (λ h. (refl, rest.0 h)), rw e (λ a. rest.1 a.1))
  | inr e ↦ (rw e (λ h. absurd (some_error h)), λ a. absurd (differ (sym e ∙ a.0)))
]
  where
    some_error : {m : Error} → some m ≡ none → ⊥
    some_error h = cc

    differ : false ≡ true → ⊥
    differ h = cc

-- Without an error of its query, VerifySchema reports, by name, in order and with a comma between each
-- and the next, exactly those objects, of the sixteen that this version of the service needs, that the
-- catalog does not have; and it accepts the schema exactly when the catalog has all of them.
pub verify_schema_iff :
    (exists : SchemaObject → Bool)
    → (verify_schema exists none ≡ described (names_missing exists needed))
      × ((verify_schema exists none ≡ none) ↔ All (λ o. exists o ≡ true) needed)
unfolding verify_schema
verify_schema_iff exists =
    (reported-described (names_missing exists needed), none_missing exists needed)
