-- ===== src/Reply/Claiming.antt =====
-- How a claim of the reply outbox can end, whatever the environment does.
use cryptopulse_telegram_bot.Prelude.{
  ℕ, ◌+◌, ◌*◌, ◌≤◌, ◌⊎◌, inl, inr, eqb_ℤ_iff, Elem, ◌≡◌, refl, Bool, true, false, ◌&&◌, ◌==◌,
  ==_iff, Option, none, some, arith,
}
use cryptopulse_telegram_bot.Schema.{ReplyRow, Db, JobStatus}
use cryptopulse_telegram_bot.Workers.{second}
use cryptopulse_telegram_bot.Outbox.Eligible.{Eligible, claimable-Eligible}
use cryptopulse_telegram_bot.Table.{find, update}
use cryptopulse_telegram_bot.Table.Laws.{find_holds, Elem-find, any_none}
use cryptopulse_telegram_bot.Session.{Env, World}
use cryptopulse_telegram_bot.Outbox.Outcome.{ClaimOutcome, claim_pending-ClaimOutcome}
use cryptopulse_telegram_bot.Reply.Jobs.{
  TelegramReplyJob, is_candidate, is_earlier, claimable, claim_row, returned, reply_outbox,
  claim_pending_telegram_reply,
}

-- A reply is claimed with a token at a time in a database `before`, and the claim leads to `after`: the
-- row stands in the table and may be claimed, and no earlier reply of its chat is open; the job is read
-- from it, with one attempt more; and of the database only the rows with this id that may be claimed are
-- changed, to being sent, with one attempt more, the token and a lease of 45 seconds.
pub record Claims (token now : ℕ) (before after : Db) (job : TelegramReplyJob) : Type 0 where
  pub row : ReplyRow
  pub stands : Elem row before.telegram_replies
  pub found :
      find (is_candidate row.id now before.telegram_replies) before.telegram_replies ≡ some row
  pub eligible : Eligible row.status row.next_attempt_at row.claimed_until now
  pub was_first :
      (other : ReplyRow)
      → Elem other before.telegram_replies
      → other.chat_id ≡ row.chat_id
      → (other.status ≡ JobStatus.pending) ⊎ (other.status ≡ JobStatus.sending)
      → row.id ≤ other.id
  pub read : job ≡ record {
    id = row.id;
    operation = row.operation;
    chat_id = row.chat_id;
    message_id = row.message_id;
    text = row.message_text;
    reply_markup = row.reply_markup;
    claim_token = token;
    attempts = row.attempts + 1;
  }
  pub written : after ≡ record before {
    telegram_replies =
        update
          (is_candidate row.id now before.telegram_replies)
          (λ r. record r {
            status = JobStatus.sending;
            attempts = r.attempts + 1;
            claim_token = some token;
            claimed_until = some (now + 45 * second);
            updated_at = now;
          })
          before.telegram_replies;
  }

none_earlier :
    (row other : ReplyRow)
    → is_earlier row other ≡ false
    → other.chat_id ≡ row.chat_id
    → (other.status ≡ JobStatus.pending) ⊎ (other.status ≡ JobStatus.sending)
    → row.id ≤ other.id
none_earlier row other h same (inl p) =
    ground (arith, h, p, (eqb_ℤ_iff other.chat_id row.chat_id).1 same)
none_earlier row other h same (inr p) =
    ground (arith, h, p, (eqb_ℤ_iff other.chat_id row.chat_id).1 same)

and_cases : (a b : Bool) → (a && b) ≡ true → (a ≡ true) × (b ≡ true)
and_cases a b h = ground arith

-- The job that the UPDATE returns belongs to the candidate's row.
claim_row-Claims :
    (id token now : ℕ) (before : Db) (job : TelegramReplyJob)
    → (claim_row id token now before).0 ≡ some job
    → Claims token now before (claim_row id token now before).1 job
unfolding claim_row
claim_row-Claims id token now before job h =
    by_row (find (is_candidate id now before.telegram_replies) before.telegram_replies) refl h
  where
    by_row :
        (o : Option ReplyRow)
        → find (is_candidate id now before.telegram_replies) before.telegram_replies ≡ o
        → returned token o ≡ some job
        → Claims token now before (claim_row id token now before).1 job
    by_row none e k = cc
    by_row (some row) e k =
        let holds = and_cases (row.id == id) (claimable now before.telegram_replies row) (
          find_holds (is_candidate id now before.telegram_replies) before.telegram_replies row e) in
        let same : row.id ≡ id = (==_iff row.id id).0 holds.0 in
        record {
          row = row;
          stands =
              Elem-find (is_candidate id now before.telegram_replies) before.telegram_replies row e;
          found = simp same e;
          eligible =
              claimable-Eligible row.status row.next_attempt_at row.claimed_until now
                (ground (arith, holds.1));
          was_first = λ other i chat o.
              none_earlier row other
                (any_none (is_earlier row) before.telegram_replies other (ground (arith, holds.1))
                  i)
                chat o;
          read = cc;
          written = simp same;
        }

-- Whatever the other sessions, the locks and the failures are: a claim returns a reply only by giving a
-- row of the table, the first one with its id that may be claimed, a token that is made by uuid at a call
-- of this claim, one attempt more and a lease of 45 seconds in a database that other sessions left, and
-- the job is this row's. It may be claimed if its next attempt is due, it is pending, or it is being sent
-- and its lease is over, and no reply of its chat with a smaller id is open. The claim returns none or
-- fails without writing anything of its own, save that such a claim may have been committed though its
-- confirmation was lost.
pub claim_pending_telegram_reply-ClaimOutcome :
    (env : Env) (w : World)
    → ClaimOutcome Claims env w.db w.calls (env.clock w.calls) (claim_pending_telegram_reply env w)
unfolding claim_pending_telegram_reply
claim_pending_telegram_reply-ClaimOutcome env w =
    claim_pending-ClaimOutcome reply_outbox Claims claim_row-Claims env w.db w.calls w (omega arith)
      refl
