-- ===== src/GoError.antt =====
-- Go's error values as the code builds and inspects them: errors.New, fmt.Errorf with %w, errors.Join,
-- the sentinel errJobOwnershipLost of internal/app/app.go, and *tgbotapi.Error.
use cryptopulse_telegram_bot.Prelude.{ℕ, Bool, true, false, ◌||◌, Option, none, some, ◌∷◌, ◌++◌, ℤ}
use cryptopulse_telegram_bot.Bytes.{Bytes, bytes}

-- The fields of tgbotapi.Error that the code reads.
pub record ApiError : Type 0 where
  pub code : ℕ
  pub message : Bytes
  pub retry_after : ℤ

pub data Error : Type 0 where
  job_ownership_lost : Error
  api : ApiError → Error
  plain : Bytes → Error
  wrapped : Bytes → Error → Error
  joined : Error → Error → Error

-- err.Error()
pub error_text : Error → Bytes
error_text job_ownership_lost = bytes "job ownership lost"
error_text (api e) = e.message
error_text (plain message) = message
error_text (wrapped prefix e) = prefix ++ bytes ": " ++ error_text e
error_text (joined a b) = error_text a ++ 10 ∷ error_text b

-- errors.Is(err, errJobOwnershipLost)
unfoldable pub is_ownership_lost : Error → Bool
is_ownership_lost job_ownership_lost = true
is_ownership_lost (api e) = false
is_ownership_lost (plain message) = false
is_ownership_lost (wrapped prefix e) = is_ownership_lost e
is_ownership_lost (joined a b) = is_ownership_lost a || is_ownership_lost b

abbrev first_api : Option ApiError → Option ApiError → Option ApiError
first_api none b = b
first_api (some a) b = some a

-- errors.As(err, &telegramError): the first *tgbotapi.Error of the tree, depth first.
unfoldable pub as_api : Error → Option ApiError
as_api job_ownership_lost = none
as_api (api e) = some e
as_api (plain message) = none
as_api (wrapped prefix e) = as_api e
as_api (joined a b) = first_api (as_api a) (as_api b)
