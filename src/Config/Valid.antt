-- ===== src/Config/Valid.antt =====
-- What a configuration that is loaded satisfies.
use cryptopulse_telegram_bot.Prelude.{
  ℕ, ◌≤◌, ◌≡◌, refl, arith, Bool, false, Option, none, some, List, [], ◌∷◌, String, ℤ, pos, negsuc,
  leb, ltb, Bool-cases, inl, inr, All, if_both,
}
use cryptopulse_telegram_bot.Bytes.{Bytes, bytes_eq}
use cryptopulse_telegram_bot.Strconv.{atoi}
use cryptopulse_telegram_bot.Workers.{max_telegram_update_worker_count}
use cryptopulse_telegram_bot.Session.{Result, ok, err}
use cryptopulse_telegram_bot.Config.{
  Config, Environment, is_empty, positive_value, optional_positive_int, required, config_of,
  first_missing, checked, with_alerts, with_workers, load,
}

pub record IsValid (cfg : Config) : Type 0 where
  pub some_worker : 1 ≤ cfg.telegram_update_workers
  pub few_workers : cfg.telegram_update_workers ≤ max_telegram_update_worker_count
  pub all_set : All (λ variable. is_empty variable.1 ≡ false) (required cfg)
  pub secrets_differ : bytes_eq cfg.metrics_secret cfg.cron_secret ≡ false

-- What holds of a value if there is one.
abbrev pub Succeeds : {A : Type 0} → (A → Type 0) → Result A → Type 0
Succeeds P (ok a) = P a
Succeeds P (err e) = Unit

none_missing :
    (variables : List (String × Bytes))
    → first_missing variables ≡ none
    → All (λ variable. is_empty variable.1 ≡ false) variables
unfolding first_missing
none_missing [] h = tt
none_missing ((name, value) ∷ variables) h = elim (Bool-cases (is_empty value)) [
  | inl e ↦ absurd (ground (arith, h, e))
  | inr e ↦ (e, none_missing variables (ground (arith, h, e)))
]

positive_value_lem : (name : String) (o : Option ℤ) → Succeeds (λ n. 1 ≤ n) (positive_value name o)
positive_value_lem name (some (pos n)) = elim (Bool-cases (leb 1 n)) [
  | inl e ↦ rw e (ground (arith, e))
  | inr e ↦ rw e tt
]
positive_value_lem name (some (negsuc n)) = tt
positive_value_lem name none = tt

optional_positive_int_lem :
    (env : Environment) (name : String) (default_value : ℕ)
    → 1 ≤ default_value
    → Succeeds (λ n. 1 ≤ n) (optional_positive_int env name default_value)
unfolding optional_positive_int
optional_positive_int_lem env name default_value h =
    if_both (Succeeds (λ n. 1 ≤ n)) (is_empty (env name)) _ _ h
      (positive_value_lem name (atoi (env name)))

checked_lem :
    (env : Environment) (workers : ℕ) (alerts : Bool) (o : Option String)
    → 1 ≤ workers
    → workers ≤ max_telegram_update_worker_count
    → (o ≡ none
        → All (λ variable. is_empty variable.1 ≡ false) (required (config_of env workers alerts)))
    → Succeeds IsValid (checked (config_of env workers alerts) o)
unfolding checked
checked_lem env workers alerts (some name) one few set = tt
checked_lem env workers alerts none one few set =
    elim (Bool-cases (bytes_eq (env "METRICS_SECRET") (env "CRON_SECRET"))) [
      | inl e ↦ rw e tt
      | inr e ↦
          rw e (record {
            some_worker = one;
            few_workers = few;
            all_set = set refl;
            secrets_differ = e;
          })
    ]

with_alerts_lem :
    (env : Environment) (workers : ℕ) (o : Option Bool)
    → 1 ≤ workers
    → workers ≤ max_telegram_update_worker_count
    → Succeeds IsValid (with_alerts env workers o)
unfolding with_alerts
with_alerts_lem env workers none one few = tt
with_alerts_lem env workers (some alerts) one few =
    checked_lem env workers alerts _ one few
      (none_missing (required (config_of env workers alerts)))

with_workers_lem :
    (env : Environment) (r : Result ℕ)
    → Succeeds (λ n. 1 ≤ n) r
    → Succeeds IsValid (with_workers env r)
unfolding with_workers
with_workers_lem env (err e) one = tt
with_workers_lem env (ok workers) one =
    elim (Bool-cases (ltb max_telegram_update_worker_count workers)) [
      | inl e ↦ rw e tt
      | inr e ↦ rw e (with_alerts_lem env workers _ one (ground (arith, e)))
    ]

-- Every configuration that Load returns has between one worker and the maximum, all five required
-- variables are set, and METRICS_SECRET differs from CRON_SECRET.
pub load-IsValid : (env : Environment) → Succeeds IsValid (load env)
unfolding load
load-IsValid env = with_workers_lem env _ (optional_positive_int_lem env _ _ (omega arith))
