-- ===== src/Reply/Moves.antt =====
-- The reply outbox as an abstract system: whatever any session of the program may do to the table of
-- replies, at any time and with any job value, a stale one too.
use cryptopulse_telegram_bot.Prelude.{
  ℕ, ◌<◌, ◌≡◌, Bool, true, false, [], ◌∷◌, ◌++◌, All, eqb_ℤ, ◌⊎◌,
}
use cryptopulse_telegram_bot.Schema.{ReplyRow, Db, is_open}
use cryptopulse_telegram_bot.Table.{delete}
use cryptopulse_telegram_bot.Reply.Jobs.{TelegramReplyJob, Ending, claim_row, end_claim}

-- A claim, an end of a claim, a new row that nobody has claimed, a deletion of final rows, and anything
-- that does not concern the table. Rows are inserted with the id of a sequence under the lock of the
-- chat, so that a new row has a greater id than the other rows of its chat.
pub data Move (d : Db) : Db → Type 0 where
  claim : (id token now : ℕ) → Move d (claim_row id token now d).1
  end : (job : TelegramReplyJob) (ending : Ending) (now : ℕ) → Move d (end_claim job ending now d).1
  create :
      (row : ReplyRow) (next_id : ℕ)
      → row.attempts ≡ 0
      → All
          (λ other. (eqb_ℤ row.chat_id other.chat_id ≡ false) ⊎ (other.id < row.id))
          d.telegram_replies
      → Move d
          (record d { telegram_replies = d.telegram_replies ++ row ∷ []; next_reply_id = next_id })
  forget :
      (p : ReplyRow → Bool)
      → ((row : ReplyRow) → p row ≡ true → is_open row.status ≡ false)
      → Move d (record d { telegram_replies = delete p d.telegram_replies })
  elsewhere : (e : Db) → e.telegram_replies ≡ d.telegram_replies → Move d e
