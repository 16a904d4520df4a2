-- ===== src/Notification/Create.antt =====
-- createCronNotificationJobs: the jobs of the subscribers whose interval is over.
use cryptopulse_telegram_bot.Prelude.{
  ℕ, ◌+◌, ◌*◌, ◌/◌, Bool, true, not, ◌&&◌, Option, none, some, List, [], ◌∷◌, map, String, ltb, leb,
  ℤ, eqb_ℤ, select, any, take, length,
}
use cryptopulse_telegram_bot.Bytes.{Bytes, bytes}
use cryptopulse_telegram_bot.Workers.{minute, cron_batch_limit}
use cryptopulse_telegram_bot.Schema.{SubscriberRow, NotificationRow, JobStatus, Db, scheduled}
use cryptopulse_telegram_bot.Table.{update, order_by}
use cryptopulse_telegram_bot.App.{App}
use cryptopulse_telegram_bot.Telegram.{text}
use cryptopulse_telegram_bot.Session.{
  Env, Try, ok, ◌>>=◌, ◌>>◌, begin, exec, commit, observed, counting, db_operations_total,
}
use cryptopulse_telegram_bot.Alert.Rows.{add_job}
use cryptopulse_telegram_bot.Handlers.Texts.{sprintf}
use cryptopulse_telegram_bot.Handlers.Subscribers.{is_open_scheduled}

abbrev pub create_operation : String
create_operation = "create_notification_jobs"

abbrev ended_before : Option ℕ → ℕ → Bool
ended_before none now = true
ended_before (some until) now = ltb until now

abbrev ended_at : Option ℕ → ℕ → Bool
ended_at none now = true
ended_at (some until) now = leb until now

-- Whole minutes since the last message; date_trunc('minute') of a time
abbrev minute_of : ℕ → ℕ
minute_of at = at / minute * minute

-- The columns that COALESCE reads are never NULL.
abbrev pub is_due : (ℤ → Bool) → ℕ → Db → SubscriberRow → Bool
is_due locked now db s =
    not (any (is_open_scheduled s.chat_id) db.notification_jobs)
    && s.is_subscribed
    && leb (minute_of s.last_sent + s.interval_minutes * minute) (minute_of now)
    && ended_before s.cron_claimed_until now
    && ended_at s.delivery_suspended_until now
    && not (locked s.chat_id)

abbrev pub Due : Type 0
Due = ℤ × String

abbrev pub due_subscribers : (ℤ → Bool) → ℕ → Db → List SubscriberRow
due_subscribers locked now db =
    take cron_batch_limit
      (order_by (λ a b. leb a.last_sent b.last_sent) (select (is_due locked now db) db.subscribers))

abbrev pub due_of : SubscriberRow → Due
due_of s = (s.chat_id, s.language_code)

-- The claim of the due subscribers, with what it returns.
unfoldable pub claim_due : (ℤ → Bool) → ℕ → Db → (List Due × ℕ) × Db
claim_due locked now db =
    let due = due_subscribers locked now db in
    (
      (map due_of due, now),
      record db {
        subscribers =
            update (λ s. any (λ d. eqb_ℤ d.chat_id s.chat_id) due)
              (λ s. record s { cron_claimed_until = some (now + 15 * minute) }) db.subscribers;
      },
    )

-- INSERT INTO notification_jobs, with the defaults of the other columns.
abbrev pub scheduled_job : Due → Bytes → ℕ → ℕ → ℕ → NotificationRow
scheduled_job (chat, lang) message at id now = record {
  id = id;
  chat_id = chat;
  language_code = lang;
  message_text = message;
  scheduled_at = at;
  status = JobStatus.pending;
  attempts = 0;
  claim_token = none;
  claimed_until = none;
  next_attempt_at = at;
  sent_at = none;
  failed_at = none;
  canceled_at = none;
  last_error = none;
  updated_at = now;
  kind = scheduled;
  price_alert_id = none;
}

abbrev pub scheduled_text : App → String → ℕ → Bytes → Bytes
scheduled_text app lang at prices = sprintf (bytes "%s\n\n%s\n\n_%s_") (
    sprintf (text app.messages lang "alert_hdr") (app.clock_text at ∷ [])
    ∷ prices
    ∷ text app.messages lang "dynamics"
    ∷ [])

unfoldable pub insert_job : Env → App → ℕ → Due → Try (Unit {0})
insert_job env app at d w =
    observed create_operation
      (exec env (add_job (scheduled_job d (scheduled_text app d.1 at (env.prices w.calls d.1)) at)))
      w

unfoldable pub insert_jobs : Env → App → ℕ → List Due → Try (Unit {0})
insert_jobs env app at [] w = (ok tt, w)
insert_jobs env app at (d ∷ due) w = (do insert_job env app at d; insert_jobs env app at due) w

unfoldable pub insert_and_commit : Env → App → List Due × ℕ → Try ℕ
insert_and_commit env app (due, at) = do
  insert_jobs env app at due
  observed create_operation (commit env)
  counting (db_operations_total create_operation "success") (length due)

abbrev claim_statement : Env → Try (List Due × ℕ)
claim_statement env w = exec env (claim_due (env.subscriber_locked w.calls)) w

-- createCronNotificationJobs
unfoldable pub create_cron_notification_jobs : Env → App → Try ℕ
create_cron_notification_jobs env app = do
  observed create_operation (begin env)
  claimed ← observed create_operation (claim_statement env)
  insert_and_commit env app claimed
