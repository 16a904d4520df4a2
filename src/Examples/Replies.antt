-- ===== src/Examples/Replies.antt =====
-- The reply outbox at a small database.
use cryptopulse_telegram_bot.Prelude.{ℕ, ◌≡◌, refl, inl, none, [], ◌∷◌, pos}
use cryptopulse_telegram_bot.Bytes.{bytes}
use cryptopulse_telegram_bot.Schema.{ReplyRow, Db, JobStatus, send_message}
use cryptopulse_telegram_bot.Session.Steps.{here, next}
use cryptopulse_telegram_bot.Outbox.Outcome.{ClaimOutcome}
use cryptopulse_telegram_bot.Reply.Jobs.{
  TelegramReplyJob, claim_pending_telegram_reply, claim_row, claimed, job_of,
}
use cryptopulse_telegram_bot.Reply.Claiming.{Claims, claim_pending_telegram_reply-ClaimOutcome}
use cryptopulse_telegram_bot.Reply.Moves.{claim}
use cryptopulse_telegram_bot.Reply.Order.{IsOrdered, Steps-IsOrdered}
use cryptopulse_telegram_bot.Examples.{noon, quiet_env, small_db, world_of}

abbrev pub reply_row : ℕ → ReplyRow
reply_row id = record {
  id = id;
  source_update_id = 10;
  sequence_no = id;
  chat_id = pos 5;
  operation = send_message;
  message_id = 0;
  message_text = bytes "ok";
  reply_markup = none;
  status = JobStatus.pending;
  attempts = 0;
  claim_token = none;
  claimed_until = none;
  next_attempt_at = noon;
  sent_at = none;
  failed_at = none;
  last_error = none;
  updated_at = noon;
}

abbrev reply_db : Db
reply_db = record small_db { telegram_replies = reply_row 1 ∷ reply_row 2 ∷ [] }

reply_claim_example :
    ClaimOutcome Claims quiet_env reply_db 0 noon
      (claim_pending_telegram_reply quiet_env (world_of reply_db))
reply_claim_example = claim_pending_telegram_reply-ClaimOutcome quiet_env (world_of reply_db)

-- Only the first reply of a chat can be claimed.
claims_the_first : (claim_row 2 500 noon reply_db).0 ≡ none
unfolding claim_row
claims_the_first = refl

abbrev reply_job : TelegramReplyJob
reply_job = job_of 500 (reply_row 1)

abbrev claimed_reply_db : Db
claimed_reply_db = record small_db {
  telegram_replies = claimed 500 noon (reply_row 1) ∷ reply_row 2 ∷ [];
}

reply_db-IsOrdered : IsOrdered reply_db
reply_db-IsOrdered = ((inl refl, (inl refl, tt)), ((inl refl, (inl refl, tt)), tt))

order_example : IsOrdered (claim_row 1 500 noon reply_db).1
order_example =
    Steps-IsOrdered {d = reply_db} {e = (claim_row 1 500 noon reply_db).1} reply_db-IsOrdered
      (next here (claim 1 500 noon))
