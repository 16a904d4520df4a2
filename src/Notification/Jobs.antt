-- ===== src/Notification/Jobs.antt =====
-- The NotificationJob of a worker, and the SQL of the notification outbox as functions of the
-- database and of NOW().
use cryptopulse_telegram_bot.Prelude.{
  ℕ, ◌≡◌, arith, ◌+◌, ◌-◌, ◌%◌, String, Bool, true, false, not, ◌&&◌, ◌||◌, Option, none, some,
  List, map, ltb, leb, ◌==◌, is_some_eq, ℤ, pos, eqb_ℤ, take, select,
}
use cryptopulse_telegram_bot.Bytes.{Bytes, bytes}
use cryptopulse_telegram_bot.Workers.{
  minute, notification_job_claim_window, outbox_claim_candidate_limit, interval,
  notification_failure_cooldown,
}
use cryptopulse_telegram_bot.Schema.{
  NotificationRow, SubscriberRow, JobKind, Db, pending, sending, sent, failed, canceled, is_pending,
  is_sending, is_open, is_price_alert,
}
use cryptopulse_telegram_bot.Table.{update, affected, find, order_by}

pub record NotificationJob : Type 0 where
  pub kind : JobKind
  pub price_alert_id : ℕ
  pub id : ℕ
  pub chat_id : ℤ
  pub lang : String
  pub text : Bytes
  pub claim_token : ℕ
  pub scheduled_at : ℕ
  pub attempts : ℕ

-- claimed_until IS NULL OR claimed_until < NOW()
abbrev pub lease_ended : Option ℕ → ℕ → Bool
lease_ended none now = true
lease_ended (some until) now = ltb until now

-- The condition under which a row may be claimed at a time.
abbrev pub claimable : ℕ → NotificationRow → Bool
claimable now row =
    is_open row.status
    && leb row.next_attempt_at now
    && (is_pending row.status || lease_ended row.claimed_until now)

-- ORDER BY scheduled_at ASC, id ASC
abbrev pub scheduled_before : NotificationRow → NotificationRow → Bool
scheduled_before a b =
    ltb a.scheduled_at b.scheduled_at || (a.scheduled_at == b.scheduled_at && leb a.id b.id)

abbrev pub candidates : ℕ → Db → List (ℕ × ℤ)
candidates now db =
    map (λ row. (row.id, row.chat_id))
      (take outbox_claim_candidate_limit
        (order_by scheduled_before (select (claimable now) db.notification_jobs)))

abbrev pub claimed : ℕ → ℕ → NotificationRow → NotificationRow
claimed token now row = record row {
  status = sending;
  attempts = row.attempts + 1;
  claim_token = some token;
  claimed_until = some (now + notification_job_claim_window);
  updated_at = now;
}

abbrev pub or_zero : Option ℕ → ℕ
or_zero none = 0
or_zero (some n) = n

-- The RETURNING clause of the claim: the row as the claim leaves it.
abbrev pub job_of : ℕ → NotificationRow → NotificationJob
job_of token row = record {
  kind = row.kind;
  price_alert_id = or_zero row.price_alert_id;
  id = row.id;
  chat_id = row.chat_id;
  lang = row.language_code;
  text = row.message_text;
  claim_token = token;
  scheduled_at = row.scheduled_at;
  attempts = row.attempts + 1;
}

abbrev pub is_candidate : ℕ → ℕ → NotificationRow → Bool
is_candidate id now row = row.id == id && claimable now row

pub and_claimable :
    (id now : ℕ) (row : NotificationRow) → is_candidate id now row ≡ true → claimable now row ≡ true
and_claimable id now row h = ground arith

abbrev pub returned : ℕ → Option NotificationRow → Option NotificationJob
returned token none = none
returned token (some row) = some (job_of token row)

unfoldable pub claim_row : ℕ → ℕ → ℕ → Db → Option NotificationJob × Db
claim_row id token now db = (
  returned token (find (is_candidate id now) db.notification_jobs),
  record db {
    notification_jobs = update (is_candidate id now) (claimed token now) db.notification_jobs;
  },
)

-- WHERE id = … AND status = 'sending' AND claim_token = … AND attempts = …
abbrev pub owns : NotificationJob → NotificationRow → Bool
owns job row =
    row.id == job.id
    && is_sending row.status
    && is_some_eq row.claim_token job.claim_token
    && row.attempts == job.attempts

-- An UPDATE of the row that a job owns.
unfoldable pub finish_row :
    NotificationJob → (ℕ → NotificationRow → NotificationRow) → ℕ → Db → ℕ × Db
finish_row job change now db = (
  affected (owns job) db.notification_jobs,
  record db { notification_jobs = update (owns job) (change now) db.notification_jobs },
)

-- An UPDATE of the job's subscriber, WHERE chat_id = … AND kind <> 'price_alert'.
unfoldable pub touch_subscriber :
    NotificationJob → (ℕ → SubscriberRow → SubscriberRow) → ℕ → Db → Unit {0} × Db
touch_subscriber job change now db = (
  tt,
  record db {
    subscribers =
        update (λ s. eqb_ℤ s.chat_id job.chat_id && not (is_price_alert job.kind)) (change now)
          db.subscribers;
  },
)

abbrev pub mark_sent : ℕ → NotificationRow → NotificationRow
mark_sent now row = record row {
  status = sent;
  sent_at = some now;
  claim_token = none;
  claimed_until = none;
  last_error = none;
  updated_at = now;
}

abbrev pub mark_pending : ℕ → Bytes → ℕ → NotificationRow → NotificationRow
mark_pending delay error now row = record row {
  status = pending;
  claim_token = none;
  claimed_until = none;
  next_attempt_at = now + delay;
  last_error = some error;
  updated_at = now;
}

abbrev pub mark_canceled : ℕ → NotificationRow → NotificationRow
mark_canceled now row = record row {
  status = canceled;
  canceled_at = some now;
  claim_token = none;
  claimed_until = none;
  last_error = some (bytes "notification disabled");
  updated_at = now;
}

abbrev pub mark_failed : Bytes → ℕ → NotificationRow → NotificationRow
mark_failed error now row = record row {
  status = failed;
  failed_at = some now;
  claim_token = none;
  claimed_until = none;
  last_error = some error;
  updated_at = now;
}

-- date_trunc('minute', t)
abbrev pub trunc_minute : ℕ → ℕ
trunc_minute t = t - t % minute

abbrev pub subscriber_served : ℕ → ℕ → SubscriberRow → SubscriberRow
subscriber_served scheduled_at now s = record s {
  last_sent = trunc_minute scheduled_at;
  cron_claimed_until = none;
  delivery_suspended_until = none;
}

abbrev pub subscriber_released : ℕ → SubscriberRow → SubscriberRow
subscriber_released now s = record s { cron_claimed_until = none }

abbrev pub subscriber_stopped : ℕ → SubscriberRow → SubscriberRow
subscriber_stopped now s = record s {
  is_subscribed = false;
  cron_claimed_until = none;
  delivery_suspended_until = none;
}

abbrev pub subscriber_suspended : ℕ → ℕ → SubscriberRow → SubscriberRow
subscriber_suspended cooldown now s = record s {
  cron_claimed_until = none;
  delivery_suspended_until = some (now + cooldown);
}

-- The four ways in which a claim ends, with what each writes to the job's row and to the subscriber's.
pub data Ending : Type 0 where
  delivered : Ending
  deferred : (delay : ℕ) (error : Bytes) → Ending
  withdrawn : Ending
  given_up : (error : Bytes) (permanent : Bool) → Ending

abbrev pub row_change : Ending → ℕ → NotificationRow → NotificationRow
row_change delivered = mark_sent
row_change (deferred delay error) = mark_pending delay error
row_change withdrawn = mark_canceled
row_change (given_up error permanent) = mark_failed error

abbrev pub subscriber_change : NotificationJob → Ending → ℕ → SubscriberRow → SubscriberRow
subscriber_change job delivered = subscriber_served job.scheduled_at
subscriber_change job (deferred delay error) = subscriber_released
subscriber_change job withdrawn = subscriber_released
subscriber_change job (given_up error true) = subscriber_stopped
subscriber_change job (given_up error false) =
    subscriber_suspended (interval (pos notification_failure_cooldown))

-- Both writes of a transaction that ends a claim.
unfoldable pub end_claim : NotificationJob → Ending → ℕ → Db → Db
unfolding finish_row touch_subscriber
end_claim job ending now db =
    (touch_subscriber job (subscriber_change job ending) now
      (finish_row job (row_change ending) now db).1).1

-- What the cancelation of an open row leaves (cancelPriceAlert and unsubscribe).
abbrev pub canceled_row : Bytes → ℕ → NotificationRow → NotificationRow
canceled_row error now row = record row {
  status = canceled;
  canceled_at = some now;
  claim_token = none;
  claimed_until = none;
  last_error = some error;
  updated_at = now;
}
