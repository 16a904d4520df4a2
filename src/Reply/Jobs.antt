-- ===== src/Reply/Jobs.antt =====
-- The TelegramReplyJob of a worker, and the SQL of the reply outbox as functions of the database and of
-- NOW(); claimPendingTelegramReply.
use cryptopulse_telegram_bot.Prelude.{
  ℕ, ◌+◌, Bool, not, ◌&&◌, ◌||◌, Option, none, some, List, map, ltb, leb, ◌==◌, is_some_eq, ℤ,
  eqb_ℤ, take, select, any,
}
use cryptopulse_telegram_bot.Bytes.{Bytes}
use cryptopulse_telegram_bot.Workers.{telegram_reply_claim_window, outbox_claim_candidate_limit}
use cryptopulse_telegram_bot.Schema.{
  ReplyRow, ReplyOperation, Db, pending, sending, sent, failed, is_pending, is_sending, is_open,
}
use cryptopulse_telegram_bot.Table.{update, affected, find, order_by}
use cryptopulse_telegram_bot.Session.{Env, Try}
use cryptopulse_telegram_bot.Outbox.{Outbox, claim_pending}
use cryptopulse_telegram_bot.Notification.Jobs.{lease_ended}

pub record TelegramReplyJob : Type 0 where
  pub id : ℕ
  pub operation : ReplyOperation
  pub chat_id : ℤ
  pub message_id : ℕ
  pub text : Bytes
  pub reply_markup : Option Bytes
  pub claim_token : ℕ
  pub attempts : ℕ

-- An open reply of the same chat with a smaller id.
abbrev pub is_earlier : ReplyRow → ReplyRow → Bool
is_earlier row earlier =
    eqb_ℤ earlier.chat_id row.chat_id && is_open earlier.status && ltb earlier.id row.id

-- The condition under which a row of a table may be claimed at a time.
abbrev pub claimable : ℕ → List ReplyRow → ReplyRow → Bool
claimable now rows row =
    is_open row.status
    && leb row.next_attempt_at now
    && (is_pending row.status || lease_ended row.claimed_until now)
    && not (any (is_earlier row) rows)

abbrev pub candidates : ℕ → Db → List (ℕ × ℤ)
candidates now db =
    map (λ row. (row.id, row.chat_id))
      (take outbox_claim_candidate_limit (
        order_by (λ a b. leb a.id b.id)
          (select (claimable now db.telegram_replies) db.telegram_replies)))

abbrev pub claimed : ℕ → ℕ → ReplyRow → ReplyRow
claimed token now row = record row {
  status = sending;
  attempts = row.attempts + 1;
  claim_token = some token;
  claimed_until = some (now + telegram_reply_claim_window);
  updated_at = now;
}

abbrev pub job_of : ℕ → ReplyRow → TelegramReplyJob
job_of token row = record {
  id = row.id;
  operation = row.operation;
  chat_id = row.chat_id;
  message_id = row.message_id;
  text = row.message_text;
  reply_markup = row.reply_markup;
  claim_token = token;
  attempts = row.attempts + 1;
}

abbrev pub is_candidate : ℕ → ℕ → List ReplyRow → ReplyRow → Bool
is_candidate id now rows row = row.id == id && claimable now rows row

abbrev pub returned : ℕ → Option ReplyRow → Option TelegramReplyJob
returned token none = none
returned token (some row) = some (job_of token row)

unfoldable pub claim_row : ℕ → ℕ → ℕ → Db → Option TelegramReplyJob × Db
claim_row id token now db = (
  returned token (find (is_candidate id now db.telegram_replies) db.telegram_replies),
  record db {
    telegram_replies =
        update (is_candidate id now db.telegram_replies) (claimed token now) db.telegram_replies;
  },
)

abbrev pub reply_outbox : Outbox TelegramReplyJob
reply_outbox = record {
  operation = "claim_telegram_reply";
  candidates = candidates;
  claim_row = claim_row;
}

unfoldable pub claim_pending_telegram_reply : Env → Try (Option TelegramReplyJob)
claim_pending_telegram_reply env = claim_pending reply_outbox env

-- WHERE id = … AND status = 'sending' AND claim_token = … AND attempts = …
abbrev pub owns : TelegramReplyJob → ReplyRow → Bool
owns job row =
    row.id == job.id
    && is_sending row.status
    && is_some_eq row.claim_token job.claim_token
    && row.attempts == job.attempts

-- How a claim of a reply ends.
pub data Ending : Type 0 where
  delivered : Ending
  deferred : ℕ → Bytes → Ending
  given_up : Bytes → Ending

abbrev pub row_change : Ending → ℕ → ReplyRow → ReplyRow
row_change delivered now row = record row {
  status = sent;
  sent_at = some now;
  claim_token = none;
  claimed_until = none;
  last_error = none;
  updated_at = now;
}
row_change (deferred delay error) now row = record row {
  status = pending;
  claim_token = none;
  claimed_until = none;
  next_attempt_at = now + delay;
  last_error = some error;
  updated_at = now;
}
row_change (given_up error) now row = record row {
  status = failed;
  failed_at = some now;
  claim_token = none;
  claimed_until = none;
  last_error = some error;
  updated_at = now;
}

unfoldable pub end_claim : TelegramReplyJob → Ending → ℕ → Db → ℕ × Db
end_claim job ending now db = (
  affected (owns job) db.telegram_replies,
  record db { telegram_replies = update (owns job) (row_change ending now) db.telegram_replies },
)
