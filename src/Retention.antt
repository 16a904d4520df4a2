-- ===== src/Retention.antt =====
-- internal/app/retention.go: the deletion of old final rows of four tables, in batches.
pub mod Termination
pub mod Selection
pub mod Cleaner
pub mod Pending
use cryptopulse_telegram_bot.Prelude.{
  ℕ, zero, suc, ◌+◌, ◌*◌, ◌≡◌, refl, String, Bool, true, false, not, ◌&&◌, ◌||◌, Option, none, some,
  List, [], ◌∷◌, map, any, take, select, ltb, leb, ◌==◌, is_some_eq, if◌then◌else◌,
}
use cryptopulse_telegram_bot.GoError.{Error}
use cryptopulse_telegram_bot.Workers.{day, retention_cleanup_limit}
use cryptopulse_telegram_bot.Schema.{
  Db, NotificationRow, UpdateRow, UpdateStatus, ReplyRow, AlertRow, AlertStatus, JobStatus,
}
use cryptopulse_telegram_bot.Table.{affected, delete, order_by}
use cryptopulse_telegram_bot.Session.{
  Env, World, Act, Try, ◌>>=◌, handle, inc, autocommit, rows_affected, count_error,
  db_operations_total,
}
use cryptopulse_telegram_bot.Alert.Rows.{is_active}

-- column IS NOT NULL AND column < NOW() - days
abbrev pub is_older : Option ℕ → ℕ → ℕ → Bool
is_older none days now = false
is_older (some at) days now = ltb (at + days * day) now

abbrev pub first_time : Option ℕ → Option ℕ → Option ℕ
first_time none b = b
first_time (some a) b = some a

-- The time to order by; NULL does not occur in a row that has expired.
abbrev pub stamp : Option ℕ → ℕ
stamp none = 0
stamp (some at) = at

-- A table, the deletion of some of its rows, which rows have expired, and the order of deletion.
pub record History (A : Type 0) : Type 0 where
  pub operation : String
  pub table : Db → List A
  pub remove : (A → Bool) → Db → Db
  pub removed : (p : A → Bool) (d : Db) → table (remove p d) ≡ delete p (table d)
  pub has_expired : ℕ → Db → A → Bool
  pub ended_at : A → ℕ
  pub key : A → ℕ

module _ {A : Type 0} (h : History A) where
  abbrev pub is_before : A → A → Bool
  is_before a b =
      ltb (h.ended_at a) (h.ended_at b) || (h.ended_at a == h.ended_at b && leb (h.key a) (h.key b))

  -- WITH expired AS (SELECT id … ORDER BY … LIMIT …)
  abbrev pub expired : ℕ → Db → List ℕ
  expired now db = map h.key (
      take retention_cleanup_limit
        (order_by is_before (select (h.has_expired now db) (h.table db))))

  abbrev pub is_listed : List ℕ → A → Bool
  is_listed ids row = any (λ id. id == h.key row) ids

  -- DELETE … USING expired WHERE id = expired.id
  unfoldable pub delete_expired : ℕ → Db → ℕ × Db
  delete_expired now db =
      let listed = is_listed (expired now db) in (affected listed (h.table db), h.remove listed db)

  -- The deleteBatch of a table
  abbrev pub delete_batch : Env → Try ℕ
  delete_batch env = autocommit env delete_expired >>= rows_affected env

-- What the loop returns; none if `fuel`, which bounds its rounds, is used up before.
abbrev pub Drained : Type 0
Drained = Option (ℕ × Option Error)

unfoldable pub drain_failed : String → ℕ → Error → Act Drained
drain_failed operation total e w = (some (total, some e), count_error operation w)

unfoldable pub after_batch : String → (ℕ → Act Drained) → ℕ → ℕ → Act Drained
after_batch operation more total deleted w =
    let rest = more (total + deleted) w in
    if ltb deleted retention_cleanup_limit
    then (some (total + deleted, none), (inc (db_operations_total operation "success") w).1)
    else rest

-- drainRetentionBatches
unfoldable pub drain_retention_batches : String → Try ℕ → ℕ → ℕ → Act Drained
drain_retention_batches operation batch zero total w = (none, w)
drain_retention_batches operation batch (suc fuel) total w =
    handle (after_batch operation (drain_retention_batches operation batch fuel) total)
      (drain_failed operation total) (batch w)

abbrev job_expired : ℕ → Db → NotificationRow → Bool
job_expired now db row = elim row.status [
  | JobStatus.sent ↦ is_older row.sent_at 30 now
  | JobStatus.failed ↦ is_older row.failed_at 90 now
  | JobStatus.canceled ↦ is_older row.canceled_at 30 now
  | JobStatus.pending ↦ false
  | JobStatus.sending ↦ false
]

abbrev pub notification_job_history : History NotificationRow
notification_job_history = record {
  operation = "notification_retention_cleanup";
  table = λ d. d.notification_jobs;
  remove = λ p d. record d { notification_jobs = delete p d.notification_jobs };
  removed = λ p d. refl;
  has_expired = job_expired;
  ended_at = λ row. stamp (first_time row.sent_at (first_time row.failed_at row.canceled_at));
  key = λ row. row.id;
}

abbrev update_expired : ℕ → Db → UpdateRow → Bool
update_expired now db row = elim row.status [
  | UpdateStatus.processed ↦ is_older row.processed_at 7 now
  | UpdateStatus.failed ↦ is_older row.failed_at 30 now
  | UpdateStatus.pending ↦ false
  | UpdateStatus.processing ↦ false
]

abbrev pub telegram_update_history : History UpdateRow
telegram_update_history = record {
  operation = "telegram_update_retention_cleanup";
  table = λ d. d.telegram_updates;
  remove = λ p d. record d { telegram_updates = delete p d.telegram_updates };
  removed = λ p d. refl;
  has_expired = update_expired;
  ended_at = λ row. stamp (first_time row.processed_at row.failed_at);
  key = λ row. row.update_id;
}

abbrev reply_expired : ℕ → Db → ReplyRow → Bool
reply_expired now db row = elim row.status [
  | JobStatus.sent ↦ is_older row.sent_at 7 now
  | JobStatus.failed ↦ is_older row.failed_at 30 now
  | JobStatus.canceled ↦ false
  | JobStatus.pending ↦ false
  | JobStatus.sending ↦ false
]

abbrev pub telegram_reply_history : History ReplyRow
telegram_reply_history = record {
  operation = "telegram_reply_retention_cleanup";
  table = λ d. d.telegram_replies;
  remove = λ p d. record d { telegram_replies = delete p d.telegram_replies };
  removed = λ p d. refl;
  has_expired = reply_expired;
  ended_at = λ row. stamp (first_time row.sent_at row.failed_at);
  key = λ row. row.id;
}

abbrev alert_expired : ℕ → Db → AlertRow → Bool
alert_expired now db a =
    not (is_active a.status)
    && is_older (some a.updated_at) 90 now
    && not (any (λ j. is_some_eq j.price_alert_id a.id) db.notification_jobs)

-- The crossings of a deleted alert go with it (ON DELETE CASCADE).
abbrev pub price_alert_history : History AlertRow
price_alert_history = record {
  operation = "price_alert_retention_cleanup";
  table = λ d. d.price_alerts;
  remove = λ p d. record d {
    price_alerts = delete p d.price_alerts;
    price_alert_crossings =
        delete (λ c. any (λ a. a.id == c.alert_id && p a) d.price_alerts) d.price_alert_crossings;
  };
  removed = λ p d. refl;
  has_expired = alert_expired;
  ended_at = λ a. a.updated_at;
  key = λ a. a.id;
}

abbrev pub cleanup : {A : Type 0} → History A → Env → ℕ → Act Drained
cleanup h env fuel = drain_retention_batches h.operation (delete_batch h env) fuel 0

-- cleanupNotificationJobHistory, cleanupTelegramUpdateHistory, cleanupTelegramReplyHistory and
-- cleanupPriceAlertHistory
abbrev pub cleanup_notification_job_history : Env → ℕ → Act Drained
cleanup_notification_job_history = cleanup notification_job_history

abbrev pub cleanup_telegram_update_history : Env → ℕ → Act Drained
cleanup_telegram_update_history = cleanup telegram_update_history

abbrev pub cleanup_telegram_reply_history : Env → ℕ → Act Drained
cleanup_telegram_reply_history = cleanup telegram_reply_history

abbrev pub cleanup_price_alert_history : Env → ℕ → Act Drained
cleanup_price_alert_history = cleanup price_alert_history

-- runNotificationRetentionCleanup: an error of one table does not keep the others from their turn.
unfoldable pub run_notification_retention_cleanup :
    Env → ℕ → Act ((Drained × Drained) × (Drained × Drained))
run_notification_retention_cleanup env fuel w =
    let jobs = cleanup_notification_job_history env fuel w in
    let updates = cleanup_telegram_update_history env fuel jobs.1 in
    let replies = cleanup_telegram_reply_history env fuel updates.1 in
    let alerts = cleanup_price_alert_history env fuel replies.1 in
    (((jobs.0, updates.0), (replies.0, alerts.0)), alerts.1)
