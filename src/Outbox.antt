-- ===== src/Outbox.antt =====
-- What claimPendingNotificationJob (internal/app/notification_outbox.go) and claimPendingTelegramReply
-- (internal/app/telegram_reply_outbox.go) share: up to ten candidates are read, and the first one whose
-- chat is not locked and whose row is still claimable is claimed. The two SQL statements are arguments.
pub mod Outcome
pub mod Eligible
use cryptopulse_telegram_bot.Prelude.{
  ℕ, String, not, Option, none, some, List, [], ◌∷◌, if◌then◌else◌, ℤ,
}
use cryptopulse_telegram_bot.Schema.{Db}
use cryptopulse_telegram_bot.Session.{
  Env, Try, ◌>>=◌, ◌>>◌, counting, observed, begin, statement, try_lock, commit,
  db_operations_total,
}

-- The outbox's SELECT of candidates, and its UPDATE … RETURNING of one row, given the row's id and a
-- fresh uuid.
pub record Outbox (Job : Type 0) : Type 0 where
  pub operation : String
  pub candidates : ℕ → Db → List (ℕ × ℤ)
  pub claim_row : ℕ → ℕ → ℕ → Db → Option Job × Db

module _ {Job : Type 0} (o : Outbox Job) (env : Env) where
  abbrev pub list_candidates : ℕ → Db → List (ℕ × ℤ) × Db
  list_candidates now db = (o.candidates now db, db)

  abbrev pub claim_statement : ℕ → Try (Option Job)
  claim_statement id w = statement env (o.claim_row id (env.uuid w.calls)) w

  abbrev pub commit_claim : Job → Try (Option Job)
  commit_claim job = do
    observed o.operation (commit env)
    counting (db_operations_total o.operation "success") (some job)

  -- sql.ErrNoRows: the row is no longer claimable, so the next candidate is tried.
  unfoldable pub commit_or : Try (Option Job) → Option Job → Try (Option Job)
  commit_or next none = next
  commit_or next (some job) = commit_claim job

  abbrev pub claim_or : Try (Option Job) → ℕ → Try (Option Job)
  claim_or next id = do row ← observed o.operation (claim_statement id); commit_or next row

  unfoldable pub claim_first : List (ℕ × ℤ) → Try (Option Job)
  claim_first [] = counting (db_operations_total o.operation "no_claimable_candidate") none
  claim_first ((id, chat) ∷ rest) =
      let next = claim_first rest in
      do locked ← observed o.operation (try_lock env); if not locked then next else claim_or next id

  unfoldable pub claim_pending : Try (Option Job)
  unfolding claim_first
  claim_pending = do
    observed o.operation (begin env)
    rows ← observed o.operation (statement env list_candidates)
    claim_first rows
