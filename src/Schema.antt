-- ===== src/Schema.antt =====
-- The tables that the SQL of internal/app reads and writes (migrations/001 to 012), row by row.
-- A time is the number of nanoseconds since Go's zero time, so a time is IsZero when it is 0; a price
-- is the bit pattern of its float64; a percentage is in hundredths; ids of BIGSERIAL columns, update
-- ids and uuids are numbers; chat ids are signed, since those of groups are negative.
use cryptopulse_telegram_bot.Prelude.{ℕ, String, Bool, true, false, Option, List, ℤ}
use cryptopulse_telegram_bot.Bytes.{Bytes}

-- The status column of notification_jobs and of telegram_replies (which are never canceled).
pub data JobStatus : Type 0 where
  pending sending sent failed canceled : JobStatus

abbrev pub is_pending : JobStatus → Bool
is_pending pending = true
is_pending sending = false
is_pending sent = false
is_pending failed = false
is_pending canceled = false

abbrev pub is_sending : JobStatus → Bool
is_sending pending = false
is_sending sending = true
is_sending sent = false
is_sending failed = false
is_sending canceled = false

-- status IN ('pending', 'sending')
abbrev pub is_open : JobStatus → Bool
is_open pending = true
is_open sending = true
is_open sent = false
is_open failed = false
is_open canceled = false

pub data JobKind : Type 0 where
  scheduled price_alert : JobKind

abbrev pub is_price_alert : JobKind → Bool
is_price_alert scheduled = false
is_price_alert price_alert = true

pub record NotificationRow : Type 0 where
  pub id : ℕ
  pub chat_id : ℤ
  pub language_code : String
  pub message_text : Bytes
  pub scheduled_at : ℕ
  pub status : JobStatus
  pub attempts : ℕ
  pub claim_token : Option ℕ
  pub claimed_until : Option ℕ
  pub next_attempt_at : ℕ
  pub sent_at : Option ℕ
  pub failed_at : Option ℕ
  pub canceled_at : Option ℕ
  pub last_error : Option Bytes
  pub updated_at : ℕ
  pub kind : JobKind
  pub price_alert_id : Option ℕ

pub record SubscriberRow : Type 0 where
  pub chat_id : ℤ
  pub interval_minutes : ℕ
  pub last_sent : ℕ
  pub language_code : String
  pub is_subscribed : Bool
  pub cron_claimed_until : Option ℕ
  pub delivery_suspended_until : Option ℕ

pub data UpdateStatus : Type 0 where
  pending processing processed failed : UpdateStatus

abbrev pub is_waiting : UpdateStatus → Bool
is_waiting pending = true
is_waiting processing = false
is_waiting processed = false
is_waiting failed = false

abbrev pub is_processing : UpdateStatus → Bool
is_processing pending = false
is_processing processing = true
is_processing processed = false
is_processing failed = false

pub record UpdateRow : Type 0 where
  pub update_id : ℕ
  pub chat_id : ℤ
  pub shard_id : ℕ
  pub stream_epoch : ℕ
  pub payload : Bytes
  pub status : UpdateStatus
  pub attempts : ℕ
  pub claimed_until : Option ℕ
  pub next_attempt_at : ℕ
  pub processed_at : Option ℕ
  pub failed_at : Option ℕ
  pub last_error : Option Bytes
  pub updated_at : ℕ

pub data ReplyOperation : Type 0 where
  send_message edit_message : ReplyOperation

pub record ReplyRow : Type 0 where
  pub id : ℕ
  pub source_update_id : ℕ
  pub sequence_no : ℕ
  pub chat_id : ℤ
  pub operation : ReplyOperation
  pub message_id : ℕ
  pub message_text : Bytes
  pub reply_markup : Option Bytes
  pub status : JobStatus
  pub attempts : ℕ
  pub claim_token : Option ℕ
  pub claimed_until : Option ℕ
  pub next_attempt_at : ℕ
  pub sent_at : Option ℕ
  pub failed_at : Option ℕ
  pub last_error : Option Bytes
  pub updated_at : ℕ

pub data AlertStatus : Type 0 where
  active triggered canceled : AlertStatus

pub record AlertRow : Type 0 where
  pub id : ℕ
  pub chat_id : ℤ
  pub source_update_id : ℕ
  pub symbol : Bytes
  pub language_code : String
  pub change_percent : ℤ
  pub base_price : ℕ
  pub base_price_at : ℕ
  pub target_price : ℕ
  pub status : AlertStatus
  pub trigger_price : Option ℕ
  pub triggered_at : Option ℕ
  pub created_at : ℕ
  pub updated_at : ℕ

pub record CrossingRow : Type 0 where
  pub alert_id : ℕ
  pub price : ℕ
  pub observed_at : ℕ

pub record PriceRow : Type 0 where
  pub symbol : Bytes
  pub price : ℕ
  pub updated_at : ℕ

pub data Setting : Type 0 where
  subscription interval language : Setting

pub record VersionRow : Type 0 where
  pub chat_id : ℤ
  pub setting : Setting
  pub stream_epoch : ℕ
  pub update_id : ℕ

-- The tables. job_ids holds the ids that notification_jobs has given to rows so far, of which some may
-- have been deleted.
pub record Db : Type 0 where
  pub subscribers : List SubscriberRow
  pub notification_jobs : List NotificationRow
  pub telegram_updates : List UpdateRow
  pub telegram_replies : List ReplyRow
  pub price_alerts : List AlertRow
  pub price_alert_crossings : List CrossingRow
  pub mutation_versions : List VersionRow
  pub market_prices : List PriceRow
  pub stream_epoch : ℕ
  pub stream_last_received_at : ℕ
  pub job_ids : List ℕ
  pub next_reply_id : ℕ
  pub next_alert_id : ℕ
