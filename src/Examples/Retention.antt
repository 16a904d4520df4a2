-- ===== src/Examples/Retention.antt =====
-- The retention at concrete inputs.
use cryptopulse_telegram_bot.Prelude.{pos, none, refl, ◌∙◌, sym, inl, inr, [], ◌∷◌, arith}
use cryptopulse_telegram_bot.Bytes.{bytes}
use cryptopulse_telegram_bot.Schema.{Db, UpdateRow, UpdateStatus}
use cryptopulse_telegram_bot.Retention.{
  History, notification_job_history, telegram_update_history, telegram_reply_history, cleanup,
}
use cryptopulse_telegram_bot.Retention.Termination.{Reports, cleanup-Reports}
use cryptopulse_telegram_bot.Retention.Selection.{HasKey}
use cryptopulse_telegram_bot.Retention.Cleaner.{start_notification_retention_cleaner}
use cryptopulse_telegram_bot.Retention.Pending.{AllKept, cleaner-AllKept}
use cryptopulse_telegram_bot.Examples.Replies.{reply_row}
use cryptopulse_telegram_bot.Examples.{noon, quiet_env, small_db, world_of, waiting_row}

cleanup_example :
    Reports notification_job_history quiet_env 1
      (cleanup notification_job_history quiet_env 1 (world_of small_db))
cleanup_example =
    cleanup-Reports notification_job_history quiet_env (λ n d. omega arith) 1 (world_of small_db)
      (omega arith)

-- A database with one row of each kind of work that waits.
abbrev waiting_update : UpdateRow
waiting_update = record {
  update_id = 3;
  chat_id = pos 5;
  shard_id = 5;
  stream_epoch = 1;
  payload = bytes "{}";
  status = UpdateStatus.pending;
  attempts = 0;
  claimed_until = none;
  next_attempt_at = noon;
  processed_at = none;
  failed_at = none;
  last_error = none;
  updated_at = noon;
}

abbrev busy_db : Db
busy_db = record small_db {
  notification_jobs = waiting_row ∷ [];
  telegram_updates = waiting_update ∷ [];
  telegram_replies = reply_row 1 ∷ [];
}

only_row-HasKey : {A : Type 0} (h : History A) (row : A) → HasKey h (row ∷ [])
only_row-HasKey h row x y (inl e) (inl f) same = e ∙ sym f
only_row-HasKey h row x y (inr e) f same = absurd e
only_row-HasKey h row x y (inl e) (inr f) same = absurd f

busy_db-AllKept : AllKept waiting_row waiting_update (reply_row 1) busy_db
busy_db-AllKept = record {
  job_kept = (only_row-HasKey notification_job_history waiting_row, inl refl);
  update_kept = (only_row-HasKey telegram_update_history waiting_update, inl refl);
  reply_kept = (only_row-HasKey telegram_reply_history (reply_row 1), inl refl);
}

kept_example :
    AllKept waiting_row waiting_update
      (reply_row 1)
      (start_notification_retention_cleaner quiet_env 2 3 (world_of busy_db)).1.db
kept_example =
    cleaner-AllKept waiting_row waiting_update (reply_row 1) quiet_env 2 3 (world_of busy_db) refl
      refl refl (λ n d k. k) busy_db-AllKept
