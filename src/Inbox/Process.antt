-- ===== src/Inbox/Process.antt =====
-- processTelegramUpdateJob and completeTelegramUpdateTx: an update takes effect, and is completed, in
-- one transaction under the lock of its chat.
use cryptopulse_telegram_bot.Prelude.{
  ℕ, zero, suc, Bool, true, false, ◌&&◌, Option, none, some, List, [], ◌∷◌, ◌++◌, ◌==◌, any, length,
  String, if◌then◌else◌,
}
use cryptopulse_telegram_bot.Bytes.{Bytes, bytes}
use cryptopulse_telegram_bot.GoError.{Error, plain, wrapped, is_ownership_lost}
use cryptopulse_telegram_bot.Schema.{Db, ReplyRow, JobStatus}
use cryptopulse_telegram_bot.Update.{
  Update, DecodedUpdate, malformed, decoded, TelegramReply, CallbackAnswer, CallbackQuery,
}
use cryptopulse_telegram_bot.App.{App}
use cryptopulse_telegram_bot.Session.{
  Env, World, Answer, delivered, rejected, unreachable, Act, Try, ok, ◌>>=◌, ◌>>◌, handle, inc,
  bump, begin, exec, commit, observed, acquire_lock, release_lock, db_operations_total,
  telegram_replies_total, telegram_send_errors_total, webhook_updates_total,
}
use cryptopulse_telegram_bot.Notification.Finish.{ensure_current_job_claim_updated}
use cryptopulse_telegram_bot.Notification.Process.{◌▸◌, logged}
use cryptopulse_telegram_bot.Mutation.{allow_telegram_mutation}
use cryptopulse_telegram_bot.Handlers.Replies.{tell, acknowledge_callback}
use cryptopulse_telegram_bot.Handlers.Updates.{process_telegram_update_with_db}
use cryptopulse_telegram_bot.Inbox.Jobs.{TelegramUpdateJob, completed, end_claim}
use cryptopulse_telegram_bot.Inbox.Finish.{
  mark_telegram_update_failed, mark_telegram_update_processing_error,
}

abbrev complete_operation : String
complete_operation = "complete_telegram_update"

-- NULLIF(markup, '')
abbrev null_if_empty : Bytes → Option Bytes
null_if_empty [] = none
null_if_empty (c ∷ text) = some (c ∷ text)

abbrev pub reply_row : TelegramUpdateJob → ℕ → TelegramReply → ℕ → ℕ → ReplyRow
reply_row job sequence_no reply id now = record {
  id = id;
  source_update_id = job.update_id;
  sequence_no = sequence_no;
  chat_id = reply.chat_id;
  operation = reply.operation;
  message_id = reply.message_id;
  message_text = reply.text;
  reply_markup = null_if_empty reply.reply_markup;
  status = JobStatus.pending;
  attempts = 0;
  claim_token = none;
  claimed_until = none;
  next_attempt_at = now;
  sent_at = none;
  failed_at = none;
  last_error = none;
  updated_at = now;
}

-- INSERT … ON CONFLICT (source_update_id, sequence_no) DO NOTHING; the sequence moves on either way.
unfoldable pub insert_reply : TelegramUpdateJob → ℕ → TelegramReply → ℕ → Db → Unit {0} × Db
insert_reply job sequence_no reply now db =
    let row = reply_row job sequence_no reply db.next_reply_id now in
    (
      tt,
      record db {
        telegram_replies =
            (if any (λ r. r.source_update_id == job.update_id && r.sequence_no == sequence_no)
                db.telegram_replies
              then db.telegram_replies
              else db.telegram_replies ++ row ∷ []);
        next_reply_id = suc db.next_reply_id;
      },
    )

unfoldable pub insert_replies : Env → TelegramUpdateJob → ℕ → List TelegramReply → Try (Unit {0})
insert_replies env job sequence_no [] w = (ok tt, w)
insert_replies env job sequence_no (reply ∷ replies) w =
    (do
      observed complete_operation (exec env (insert_reply job sequence_no reply))
      insert_replies env job (suc sequence_no) replies)
      w

unfoldable pub mark_processed : Env → TelegramUpdateJob → Try (Unit {0})
mark_processed env job = do
  affected ← observed complete_operation (exec env (end_claim job completed))
  ensure_current_job_claim_updated env complete_operation affected

-- completeTelegramUpdateTx
unfoldable pub complete_telegram_update_tx :
    Env → TelegramUpdateJob → List TelegramReply → Try (Unit {0})
complete_telegram_update_tx env job replies = do
  insert_replies env job 0 replies
  mark_processed env job

abbrev pub add_times : ℕ → Act (Unit {0})
add_times zero w = (tt, w)
add_times (suc n) w = add_times n (inc (telegram_replies_total "queued") w).1

-- observeCompletedTelegramUpdate
unfoldable pub observe_completed_telegram_update : ℕ → Act (Unit {0})
observe_completed_telegram_update reply_count =
    inc (db_operations_total complete_operation "success") ▸ add_times reply_count

unfoldable pub callback_answered : Answer → World → World
callback_answered (delivered id) w = w
callback_answered (rejected e) w = (inc (telegram_send_errors_total "callback_answer") w).1
callback_answered (unreachable m) w = (inc (telegram_send_errors_total "callback_answer") w).1

-- flushCallbackAnswers: bot.Request of each answer; an error is counted.
unfoldable pub flush_callback_answers : Env → List CallbackAnswer → Act (Unit {0})
flush_callback_answers env [] w = (tt, w)
flush_callback_answers env (a ∷ answers) w = flush_callback_answers env answers (
    callback_answered (env.telegram w.calls)
      (record (bump w) { callback_log = w.callback_log ++ a ∷ [] }))

abbrev pub skipped : Option CallbackQuery → World → World
skipped none w = w
skipped (some q) w = acknowledge_callback q.id w

unfoldable pub apply_if : Env → App → Update → Bool → Try (Unit {0})
apply_if env app u true = process_telegram_update_with_db env app u
apply_if env app u false = tell (skipped u.callback_query)

-- What the recovered function does: the changes of an update, unless a newer one overrides it.
unfoldable pub apply_update : Env → App → TelegramUpdateJob → Update → Try (Unit {0})
apply_update env app job u = do apply ← allow_telegram_mutation env job u; apply_if env app u apply

module _ (env : Env) (app : App) (job : TelegramUpdateJob) where
  unfoldable pub after_commit : Unit {0} → Act (Unit {0})
  after_commit done w =
      (observe_completed_telegram_update (length w.collected)
          ▸ flush_callback_answers env w.callbacks
          ▸ inc (webhook_updates_total "processed"))
        w

  unfoldable pub commit_failed : Error → Act (Unit {0})
  commit_failed e =
      inc (db_operations_total complete_operation "error")
      ▸ mark_telegram_update_processing_error env job e

  unfoldable pub commit_update : Unit {0} → Act (Unit {0})
  commit_update done w = handle after_commit commit_failed (commit env w)

  unfoldable pub completion_failed : Error → Act (Unit {0})
  completion_failed e =
      if is_ownership_lost e
      then inc (webhook_updates_total "processed_stale_claim")
      else inc (webhook_updates_total "processed_persist_error")
        ▸ mark_telegram_update_processing_error env job e

  unfoldable pub complete_update : Unit {0} → Act (Unit {0})
  complete_update done w =
      handle commit_update completion_failed (complete_telegram_update_tx env job w.collected w)

  unfoldable pub process_failed : Error → Act (Unit {0})
  process_failed e = mark_telegram_update_processing_error env job e

  -- With a new collector.
  unfoldable pub apply_and_complete : Update → Unit {0} → Act (Unit {0})
  apply_and_complete u done w =
      handle complete_update process_failed
        (apply_update env app job u (record w { collected = []; callbacks = [] }))

  unfoldable pub begin_failed : Error → Act (Unit {0})
  begin_failed e =
      mark_telegram_update_processing_error env job
        (wrapped (bytes "begin telegram update transaction") e)

  unfoldable pub process_locked : Update → Act (Unit {0})
  process_locked u w = handle (apply_and_complete u) begin_failed (begin env w)

  unfoldable pub lock_failed : Error → Act (Unit {0})
  lock_failed e =
      mark_telegram_update_processing_error env job (wrapped (bytes "acquire telegram chat lock") e)

  unfoldable pub process_decoded : DecodedUpdate → Act (Unit {0})
  process_decoded (malformed m) w =
      (logged (mark_telegram_update_failed env job (plain m))
          ▸ inc (webhook_updates_total "failed_invalid_payload"))
        w
  process_decoded (decoded u) w =
      handle (λ _. process_locked u ▸ release_lock env) lock_failed (acquire_lock env job.chat_id w)

  -- processTelegramUpdateJob
  unfoldable pub process_telegram_update_job : Act (Unit {0})
  process_telegram_update_job = process_decoded (env.decode_update job.payload)
