-- ===== src/Inbox/Jobs.antt =====
-- The SQL of the inbox as functions of the database and of NOW().
use cryptopulse_telegram_bot.Prelude.{
  ℕ, ◌+◌, ◌*◌, Bool, not, ◌&&◌, ◌||◌, Option, none, some, List, [], ◌∷◌, ◌++◌, ltb, leb, ◌==◌, ℤ,
  eqb_ℤ, if◌then◌else◌, select, any,
}
use cryptopulse_telegram_bot.Bytes.{Bytes}
use cryptopulse_telegram_bot.Workers.{day, telegram_update_claim_window}
use cryptopulse_telegram_bot.Schema.{UpdateRow, UpdateStatus, Db, is_waiting, is_processing}
use cryptopulse_telegram_bot.Table.{update, affected, order_by}
use cryptopulse_telegram_bot.Notification.Jobs.{lease_ended}

pub record TelegramUpdateJob : Type 0 where
  pub update_id : ℕ
  pub stream_epoch : ℕ
  pub chat_id : ℤ
  pub payload : Bytes
  pub attempts : ℕ

-- After a week without updates the ids may start again: a new epoch.
abbrev pub next_epoch : ℕ → Db → ℕ
next_epoch clock_timestamp db =
    db.stream_epoch + (if ltb (db.stream_last_received_at + 7 * day) clock_timestamp then 1 else 0)

abbrev pub new_row : ℕ → ℤ → ℕ → ℕ → Bytes → ℕ → UpdateRow
new_row update_id chat_id shard_id epoch payload now = record {
  update_id = update_id;
  chat_id = chat_id;
  shard_id = shard_id;
  stream_epoch = epoch;
  payload = payload;
  status = UpdateStatus.pending;
  attempts = 0;
  claimed_until = none;
  next_attempt_at = now;
  processed_at = none;
  failed_at = none;
  last_error = none;
  updated_at = now;
}

-- INSERT … ON CONFLICT (update_id) DO NOTHING
unfoldable pub insert_update : UpdateRow → Db → ℕ × Db
insert_update row db =
    if any (λ r. r.update_id == row.update_id) db.telegram_updates
    then (0, db)
    else (1, record db { telegram_updates = db.telegram_updates ++ row ∷ [] })

-- status IN ('pending', 'processing')
abbrev pub is_open : UpdateStatus → Bool
is_open s = is_waiting s || is_processing s

-- (a.stream_epoch, a.update_id) < (b.stream_epoch, b.update_id)
abbrev pub precedes : UpdateRow → UpdateRow → Bool
precedes a b =
    ltb a.stream_epoch b.stream_epoch
    || (a.stream_epoch == b.stream_epoch && ltb a.update_id b.update_id)

-- An open update of the same chat that comes before.
abbrev pub is_earlier : UpdateRow → UpdateRow → Bool
is_earlier row earlier =
    eqb_ℤ earlier.chat_id row.chat_id && is_open earlier.status && precedes earlier row

abbrev pub claimable : List ℕ → ℕ → List UpdateRow → UpdateRow → Bool
claimable shards now rows row =
    any (λ shard. row.shard_id == shard) shards
    && is_open row.status
    && leb row.next_attempt_at now
    && (is_waiting row.status || lease_ended row.claimed_until now)
    && not (any (is_earlier row) rows)

-- ORDER BY … LIMIT 1 FOR UPDATE SKIP LOCKED
abbrev pub first_of : List UpdateRow → Option UpdateRow
first_of [] = none
first_of (row ∷ rows) = some row

unfoldable pub next_update : (ℕ → Bool) → List ℕ → ℕ → Db → Option UpdateRow
next_update locked shards now db = first_of (
    order_by (λ a b. not (precedes b a))
      (select (λ row. claimable shards now db.telegram_updates row && not (locked row.update_id))
        db.telegram_updates))

abbrev pub claimed : ℕ → UpdateRow → UpdateRow
claimed now row = record row {
  status = UpdateStatus.processing;
  attempts = row.attempts + 1;
  claimed_until = some (now + telegram_update_claim_window);
  updated_at = now;
}

abbrev pub job_of : UpdateRow → TelegramUpdateJob
job_of row = record {
  update_id = row.update_id;
  stream_epoch = row.stream_epoch;
  chat_id = row.chat_id;
  payload = row.payload;
  attempts = row.attempts + 1;
}

abbrev pub claim_update : Option UpdateRow → ℕ → Db → Option TelegramUpdateJob × Db
claim_update none now db = (none, db)
claim_update (some row) now db = (
  some (job_of row),
  record db {
    telegram_updates = update (λ r. r.update_id == row.update_id) (claimed now) db.telegram_updates;
  },
)

unfoldable pub claim_next : (ℕ → Bool) → List ℕ → ℕ → Db → Option TelegramUpdateJob × Db
claim_next locked shards now db = claim_update (next_update locked shards now db) now db

-- WHERE update_id = … AND status = 'processing' AND attempts = …
abbrev pub owns : TelegramUpdateJob → UpdateRow → Bool
owns job row =
    row.update_id == job.update_id && is_processing row.status && row.attempts == job.attempts

-- How a claim of an update ends.
pub data Ending : Type 0 where
  completed : Ending
  deferred : ℕ → Bytes → Ending
  given_up : Bytes → Ending

abbrev pub row_change : Ending → ℕ → UpdateRow → UpdateRow
row_change completed now row = record row {
  status = UpdateStatus.processed;
  processed_at = some now;
  claimed_until = none;
  last_error = none;
  updated_at = now;
}
row_change (deferred delay error) now row = record row {
  status = UpdateStatus.pending;
  claimed_until = none;
  next_attempt_at = now + delay;
  last_error = some error;
  updated_at = now;
}
row_change (given_up error) now row = record row {
  status = UpdateStatus.failed;
  failed_at = some now;
  claimed_until = none;
  last_error = some error;
  updated_at = now;
}

unfoldable pub end_claim : TelegramUpdateJob → Ending → ℕ → Db → ℕ × Db
end_claim job ending now db = (
  affected (owns job) db.telegram_updates,
  record db { telegram_updates = update (owns job) (row_change ending now) db.telegram_updates },
)
