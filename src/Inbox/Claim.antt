-- ===== src/Inbox/Claim.antt =====
-- claimPendingTelegramUpdateForWorker: the first waiting update of the worker's shards.
use cryptopulse_telegram_bot.Prelude.{
  ℕ, String, ◌||◌, Option, none, some, List, [], ◌∷◌, ◌++◌, if◌then◌else◌, ℤ, pos, leb_ℤ, ltb_ℤ,
}
use cryptopulse_telegram_bot.Bytes.{bytes, format_int}
use cryptopulse_telegram_bot.GoError.{plain}
use cryptopulse_telegram_bot.Session.{
  Env, Try, ◌>>=◌, ◌>>◌, return, fail, counting, observed, begin, statement, commit,
  db_operations_total,
}
use cryptopulse_telegram_bot.Inbox.Partition.{telegram_worker_shard_ids}
use cryptopulse_telegram_bot.Inbox.Jobs.{TelegramUpdateJob, claim_next}

abbrev pub claim_operation : String
claim_operation = "claim_telegram_update"

abbrev pub claim_statement : Env → List ℕ → Try (Option TelegramUpdateJob)
claim_statement env shards w = statement env (claim_next (env.row_locked w.calls) shards) w

unfoldable pub commit_claim : Env → Option TelegramUpdateJob → Try (Option TelegramUpdateJob)
commit_claim env none = return none
commit_claim env (some job) = do
  observed claim_operation (commit env)
  counting (db_operations_total claim_operation "success") (some job)

unfoldable pub claim_in_shards : Env → List ℕ → Try (Option TelegramUpdateJob)
claim_in_shards env [] = return none
claim_in_shards env (shard ∷ shards) = do
  observed claim_operation (begin env)
  job ← observed claim_operation (claim_statement env (shard ∷ shards))
  commit_claim env job

unfoldable pub claim_pending_telegram_update_for_worker :
    Env → ℤ → ℤ → Try (Option TelegramUpdateJob)
claim_pending_telegram_update_for_worker env worker_id worker_count =
    if ltb_ℤ worker_count (pos 1) || ltb_ℤ worker_id (pos 0) || leb_ℤ worker_count worker_id
    then fail (
        plain (
          bytes "invalid Telegram worker partition "
          ++ format_int worker_id
          ++ bytes "/"
          ++ format_int worker_count))
    else claim_in_shards env (telegram_worker_shard_ids worker_id worker_count)
