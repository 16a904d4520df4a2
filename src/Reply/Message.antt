-- ===== src/Reply/Message.antt =====
-- What a worker of replies may send, and when, in terms of the rows of the database.
use cryptopulse_telegram_bot.Prelude.{
  ℕ, ◌+◌, ◌*◌, ◌<◌, ◌≡◌, refl, arith, true, ◌&&◌, Option, none, some, [], ◌∷◌, Elem, ◌⊎◌, inl, inr,
  ◌==◌, is_some_eq,
}
use cryptopulse_telegram_bot.Bytes.{Bytes}
use cryptopulse_telegram_bot.Workers.{second}
use cryptopulse_telegram_bot.Schema.{
  ReplyRow, JobStatus, send_message, edit_message, Db, is_sending,
}
use cryptopulse_telegram_bot.Table.Laws.{any_holds}
use cryptopulse_telegram_bot.Session.{Outgoing}
use cryptopulse_telegram_bot.Notification.Message.{sending_status}
use cryptopulse_telegram_bot.Notification.Process.{lease_reaches}
use cryptopulse_telegram_bot.Reply.Jobs.{TelegramReplyJob}
use cryptopulse_telegram_bot.Reply.Process.{holds_claim, message_of, stored_markup}

-- The job's row is being sent under the job's token and attempt, with more than 15 seconds of its lease
-- left.
pub record HoldsClaim (job : TelegramReplyJob) (now : ℕ) (d : Db) : Type 0 where
  pub row : ReplyRow
  pub stands : Elem row d.telegram_replies
  pub same_id : row.id ≡ job.id
  pub is_sent : row.status ≡ JobStatus.sending
  pub same_token : row.claim_token ≡ some job.claim_token
  pub same_attempt : row.attempts ≡ job.attempts
  pub until : ℕ
  pub lease : row.claimed_until ≡ some until
  pub time_left : now + 15 * second < until

-- A new message, or the edit of the one that the reply names, with the text and the keyboard of a reply.
pub record IsMessage (job : TelegramReplyJob) (m : Outgoing) : Type 0 where
  pub to_chat : m.chat_id ≡ job.chat_id
  pub same_text : m.text ≡ job.text
  pub same_markup : (k : Bytes) → m.markup ≡ some k → job.reply_markup ≡ some k
  pub no_markup : m.markup ≡ none → (job.reply_markup ≡ none) ⊎ (job.reply_markup ≡ some [])
  pub is_new : job.operation ≡ send_message → m.edited_message ≡ none
  pub is_edit : job.operation ≡ edit_message → m.edited_message ≡ some job.message_id

pub holds_claim-HoldsClaim :
    (job : TelegramReplyJob) (now : ℕ) (d : Db)
    → holds_claim job now d ≡ true
    → HoldsClaim job now d
holds_claim-HoldsClaim job now d h =
    let (row, i, e) = any_holds _ d.telegram_replies h in
    by_lease row i row.claimed_until row.claim_token refl refl e
  where
    by_lease :
        (row : ReplyRow)
        → Elem row d.telegram_replies
        → (o t : Option ℕ) → row.claimed_until ≡ o
        → row.claim_token ≡ t
        → (row.id == job.id
            && is_sending row.status
            && is_some_eq row.claim_token job.claim_token
            && row.attempts == job.attempts
            && lease_reaches row.claimed_until (now + 15 * second))
          ≡ true
        → HoldsClaim job now d
    by_lease row i none t o k e = absurd (ground (arith, o, e))
    by_lease row i (some until) none o k e = absurd (ground (arith, k, e))
    by_lease row i (some until) (some token) o k e = record {
      row = row;
      stands = i;
      same_id = ground (arith, e);
      is_sent = sending_status row.status (ground (arith, e));
      same_token = ground (arith, e, k);
      same_attempt = ground (arith, e);
      until = until;
      lease = o;
      time_left = ground (arith, e, o);
    }

pub message_of-IsMessage :
    (job : TelegramReplyJob) → IsMessage job (message_of job (stored_markup job.reply_markup))
message_of-IsMessage job = record {
  to_chat = refl;
  same_text = refl;
  same_markup = λ k e. same job.reply_markup k e;
  no_markup = λ e. missing job.reply_markup e;
  is_new = λ e. rw e refl;
  is_edit = λ e. rw e refl;
}
  where
    same : (o : Option Bytes) (k : Bytes) → stored_markup o ≡ some k → o ≡ some k
    same none k e = e
    same (some []) k e = absurd (ground (arith, e))
    same (some (c ∷ cs)) k e = e

    missing : (o : Option Bytes) → stored_markup o ≡ none → (o ≡ none) ⊎ (o ≡ some [])
    missing none e = inl refl
    missing (some []) e = inr refl
    missing (some (c ∷ cs)) e = absurd (ground (arith, e))
