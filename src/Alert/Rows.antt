-- ===== src/Alert/Rows.antt =====
-- The SQL of the alerts as functions of the database and of its clock.
use cryptopulse_telegram_bot.Prelude.{
  ℕ, suc, max, ◌+◌, Bool, true, false, not, ◌&&◌, ◌||◌, Option, none, some, List, [], ◌∷◌, ◌++◌,
  String, ltb, leb, ◌==◌, is_some_eq, ℤ, pos, eqb_ℤ, ltb_ℤ, if◌then◌else◌, select, any, take,
}
use cryptopulse_telegram_bot.Bytes.{Bytes, bytes, bytes_eq}
use cryptopulse_telegram_bot.Schema.{
  AlertRow, AlertStatus, CrossingRow, NotificationRow, SubscriberRow, JobStatus, Db, is_open,
  is_price_alert, price_alert,
}
use cryptopulse_telegram_bot.Table.{update, affected, delete, find, order_by}
use cryptopulse_telegram_bot.Pricing.{price_freshness_limit}
use cryptopulse_telegram_bot.Notification.Jobs.{canceled_row}

abbrev pub is_active : AlertStatus → Bool
is_active AlertStatus.active = true
is_active AlertStatus.triggered = false
is_active AlertStatus.canceled = false

-- EXISTS (… notification_jobs WHERE price_alert_id = … AND status IN ('pending', 'sending'))
abbrev pub has_open_job : ℕ → List NotificationRow → Bool
has_open_job alert jobs = any (λ j. is_some_eq j.price_alert_id alert && is_open j.status) jobs

-- An alert that is active, or whose notification is still to be delivered.
abbrev pub is_live : Db → AlertRow → Bool
is_live db a = is_active a.status || has_open_job a.id db.notification_jobs

abbrev pub live_alerts : ℤ → Db → ℕ
live_alerts chat_id db = affected (λ a. eqb_ℤ a.chat_id chat_id && is_live db a) db.price_alerts

-- The unique indexes: one alert for an update, and one active alert for a chat, a coin and a
-- percentage.
abbrev pub conflicts : AlertRow → AlertRow → Bool
conflicts a b =
    a.source_update_id == b.source_update_id
    || (eqb_ℤ a.chat_id b.chat_id
        && bytes_eq a.symbol b.symbol
        && eqb_ℤ a.change_percent b.change_percent
        && is_active a.status
        && is_active b.status)

-- INSERT … ON CONFLICT DO NOTHING RETURNING id, of a row that gets its id from the sequence.
unfoldable pub insert_alert : AlertRow → ℕ → Db → Option ℕ × Db
insert_alert row now db =
    if any (conflicts row) db.price_alerts
    then (none, record db { next_alert_id = suc db.next_alert_id })
    else (
      some db.next_alert_id,
      record db {
        price_alerts =
            db.price_alerts ++ record row { id = db.next_alert_id; updated_at = now } ∷ [];
        next_alert_id = suc db.next_alert_id;
      },
    )

abbrev pub canceled_alert : ℕ → AlertRow → AlertRow
canceled_alert now a = record a { status = AlertStatus.canceled; updated_at = now }

abbrev pub is_cancelable : ℕ → ℤ → Db → AlertRow → Bool
is_cancelable id chat_id db a = a.id == id && eqb_ℤ a.chat_id chat_id && is_live db a

unfoldable pub cancel_alert : ℕ → ℤ → ℕ → Db → ℕ × Db
cancel_alert id chat_id now db = (
  affected (is_cancelable id chat_id db) db.price_alerts,
  record db {
    price_alerts = update (is_cancelable id chat_id db) (canceled_alert now) db.price_alerts;
  },
)

-- The open jobs of an alert
abbrev pub job_of_alert : ℕ → ℤ → NotificationRow → Bool
job_of_alert alert chat_id row =
    is_some_eq row.price_alert_id alert
    && eqb_ℤ row.chat_id chat_id
    && is_price_alert row.kind
    && is_open row.status

unfoldable pub cancel_jobs : ℕ → ℤ → ℕ → Db → Unit {0} × Db
cancel_jobs alert chat_id now db = (
  tt,
  record db {
    notification_jobs =
        update (job_of_alert alert chat_id) (canceled_row (bytes "price alert canceled") now)
          db.notification_jobs;
  },
)

-- Both bounds of an observation come from the database's clock.
pub record PriceObservation : Type 0 where
  pub started_at : ℕ
  pub stored_at : ℕ

abbrev pub is_reached : ℕ → AlertRow → Bool
is_reached price a =
    (ltb_ℤ (pos 0) a.change_percent && leb a.target_price price)
    || (ltb_ℤ a.change_percent (pos 0) && leb price a.target_price)

-- The alerts that an observed price crosses, at a time of clock_timestamp().
abbrev pub is_crossed : Bytes → ℕ → PriceObservation → ℕ → AlertRow → Bool
is_crossed symbol price o clock_timestamp a =
    bytes_eq a.symbol symbol
    && is_active a.status
    && ltb a.created_at o.started_at
    && leb a.base_price_at o.started_at
    && leb clock_timestamp (o.started_at + price_freshness_limit)
    && leb o.stored_at clock_timestamp
    && is_reached price a

-- INSERT … SELECT … ON CONFLICT (alert_id) DO NOTHING
abbrev pub add_crossing : ℕ → PriceObservation → List AlertRow → List CrossingRow → List CrossingRow
add_crossing price o [] crossings = crossings
add_crossing price o (a ∷ alerts) crossings = add_crossing price o alerts (
    if any (λ c. c.alert_id == a.id) crossings
    then crossings
    else crossings ++ record { alert_id = a.id; price = price; observed_at = o.stored_at } ∷ [])

unfoldable pub capture : Bytes → ℕ → PriceObservation → ℕ → ℕ → Db → Unit {0} × Db
capture symbol price o clock_timestamp now db = (
  tt,
  record db {
    price_alert_crossings =
        add_crossing price o
          (order_by (λ a b. leb a.id b.id)
            (select (is_crossed symbol price o clock_timestamp) db.price_alerts))
          db.price_alert_crossings;
  },
)

-- DELETE … USING price_alerts … WHERE pa.status <> 'active'
unfoldable pub drop_settled : ℕ → Db → Unit {0} × Db
drop_settled now db = (
  tt,
  record db {
    price_alert_crossings =
        delete (λ c. any (λ a. a.id == c.alert_id && not (is_active a.status)) db.price_alerts)
          db.price_alert_crossings;
  },
)

pub record Crossing : Type 0 where
  pub alert_id : ℕ
  pub chat_id : ℤ
  pub price : ℕ
  pub observed_at : ℕ

abbrev pub joined_with : List AlertRow → CrossingRow → List Crossing
joined_with [] c = []
joined_with (a ∷ alerts) c =
    let rest = joined_with alerts c in
    if a.id == c.alert_id && is_active a.status
    then record {
      alert_id = a.id;
      chat_id = a.chat_id;
      price = c.price;
      observed_at = c.observed_at;
    }
      ∷ rest
    else rest

abbrev pub join_all : List AlertRow → List CrossingRow → List Crossing
join_all alerts [] = []
join_all alerts (c ∷ crossings) = joined_with alerts c ++ join_all alerts crossings

-- The next hundred crossings of active alerts after an id, by id.
unfoldable pub next_crossings : ℕ → ℕ → Db → List Crossing
next_crossings after now db = take 100 (
    order_by (λ a b. leb a.alert_id b.alert_id)
      (select (λ c. ltb after c.alert_id) (join_all db.price_alerts db.price_alert_crossings)))

abbrev pub is_triggered_by : ℕ → AlertRow → Bool
is_triggered_by id a = a.id == id && is_active a.status

abbrev pub language_or : String → Option SubscriberRow → String
language_or d none = d
language_or d (some s) = s.language_code

-- What the UPDATE … RETURNING of triggerPriceAlert leaves; the language is the subscriber's.
abbrev pub triggered_alert : ℕ → ℕ → ℕ → AlertRow → AlertRow
triggered_alert price at now a = record a {
  status = AlertStatus.triggered;
  trigger_price = some price;
  triggered_at = some at;
  updated_at = now;
}

abbrev pub returned_alert : Db → Option AlertRow → Option AlertRow
returned_alert db none = none
returned_alert db (some a) = some (record a {
  language_code =
      language_or a.language_code (find (λ s. eqb_ℤ s.chat_id a.chat_id) db.subscribers);
})

unfoldable pub trigger_alert : ℕ → ℕ → ℕ → ℕ → Db → Option AlertRow × Db
trigger_alert id price at now db = (
  returned_alert db (find (is_triggered_by id) db.price_alerts),
  record db {
    price_alerts = update (is_triggered_by id) (triggered_alert price at now) db.price_alerts;
  },
)

-- The next id of the sequence of notification_jobs.
unfoldable pub fresh_id : List ℕ → ℕ
fresh_id [] = 1
fresh_id (id ∷ ids) = max (suc id) (fresh_id ids)

-- INSERT INTO notification_jobs of an alert.
abbrev pub alert_job : AlertRow → Bytes → ℕ → ℕ → ℕ → NotificationRow
alert_job a text at id now = record {
  id = id;
  chat_id = a.chat_id;
  language_code = a.language_code;
  message_text = text;
  scheduled_at = at;
  status = JobStatus.pending;
  attempts = 0;
  claim_token = none;
  claimed_until = none;
  next_attempt_at = now;
  sent_at = none;
  failed_at = none;
  canceled_at = none;
  last_error = none;
  updated_at = now;
  kind = price_alert;
  price_alert_id = some a.id;
}

unfoldable pub add_job : (ℕ → ℕ → NotificationRow) → ℕ → Db → Unit {0} × Db
add_job row now db = (
  tt,
  record db {
    notification_jobs = db.notification_jobs ++ row (fresh_id db.job_ids) now ∷ [];
    job_ids = fresh_id db.job_ids ∷ db.job_ids;
  },
)

unfoldable pub delete_crossing : ℕ → ℕ → Db → Unit {0} × Db
delete_crossing alert now db = (
  tt,
  record db { price_alert_crossings = delete (λ c. c.alert_id == alert) db.price_alert_crossings },
)
