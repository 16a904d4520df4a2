-- ===== src/Inbox/Save.antt =====
-- saveTelegramUpdate: an update is stored once, in the epoch of its stream.
use cryptopulse_telegram_bot.Prelude.{
  ℕ, String, Bool, Option, none, some, ltb, if◌then◌else◌, ℤ, pos,
}
use cryptopulse_telegram_bot.Bytes.{Bytes}
use cryptopulse_telegram_bot.Workers.{telegram_update_shard_count}
use cryptopulse_telegram_bot.Schema.{Db}
use cryptopulse_telegram_bot.Session.{
  Env, Try, ◌>>=◌, ◌>>◌, return, counting, observed, begin, statement, further, rows_affected,
  commit, db_operations_total,
}
use cryptopulse_telegram_bot.Inbox.Partition.{telegram_shard_index}
use cryptopulse_telegram_bot.Inbox.Jobs.{next_epoch, new_row, insert_update}

abbrev pub save_operation : String
save_operation = "save_telegram_update"

-- telegramUpdateChatID gives none for an update without a chat.
abbrev pub chat_or_zero : Option ℤ → ℤ
chat_or_zero none = pos 0
chat_or_zero (some chat) = chat

-- A statement that asks clock_timestamp(): the first one of the transaction, and a later one.
abbrev pub locked_epoch : Env → Try ℕ
locked_epoch env w = statement env (λ now db. (next_epoch (env.clock w.calls) db, db)) w

abbrev pub received : ℕ → ℕ → ℕ → Db → Unit {0} × Db
received epoch clock_timestamp now db =
    (tt, record db { stream_epoch = epoch; stream_last_received_at = clock_timestamp })

unfoldable pub advance_stream : Env → ℕ → ℕ → Try (Unit {0})
advance_stream env epoch inserted w =
    if ltb 0 inserted then further env (received epoch (env.clock w.calls)) w else return tt w

-- The row of the stream is locked by the first statement (FOR UPDATE), and every save takes that
-- lock, so that none is interleaved from there on.
unfoldable pub save_telegram_update : Env → ℕ → Option ℤ → Bytes → Try Bool
save_telegram_update env update_id chat payload =
    let chat_id = chat_or_zero chat in
    let shard_id = telegram_shard_index chat_id telegram_update_shard_count in
    do
      begin env
      epoch ← locked_epoch env
      count ← observed save_operation (
          further env (λ now. insert_update (new_row update_id chat_id shard_id epoch payload now)))
      inserted ← observed save_operation (rows_affected env count)
      advance_stream env epoch inserted
      commit env
      counting (db_operations_total save_operation "success") (ltb 0 inserted)
