-- ===== src/Examples.antt =====
-- A small database and environments for the tests: one subscriber, one waiting notification.
pub mod Policy
pub mod Outbox
pub mod Replies
pub mod Inbox
pub mod Alerts
pub mod Retention
pub mod Processing
pub mod Service
pub mod Cron
pub mod Prices
pub mod Web
pub mod Database
pub mod Workers
pub mod Lifecycle
use cryptopulse_telegram_bot.Prelude.{
  ℕ, ◌+◌, ◌*◌, ℤ, pos, true, false, Option, none, some, List, [], ◌∷◌,
}
use cryptopulse_telegram_bot.Bytes.{Bytes, bytes}
use cryptopulse_telegram_bot.Workers.{second}
use cryptopulse_telegram_bot.App.{App}
use cryptopulse_telegram_bot.Schema.{NotificationRow, SubscriberRow, Db, JobStatus, scheduled}
use cryptopulse_telegram_bot.Session.{Env, World, Commit, Answer, applied, delivered}
use cryptopulse_telegram_bot.Update.{malformed}
use cryptopulse_telegram_bot.Notification.Moves.{OthersMove, here}

abbrev pub noon : ℕ
noon = 1_000_000 * second

-- Nothing fails, and nobody else is there.
abbrev pub quiet_env : Env
quiet_env = record {
  clock = λ n. noon + n;
  failure = λ n. none;
  commit = λ n. applied;
  others = λ n d. d;
  lock_free = λ n. true;
  uuid = λ n. 500 + n;
  telegram = λ n. delivered 77;
  context_error = λ n. none;
  row_locked = λ n id. false;
  subscriber_locked = λ n chat. false;
  prices = λ n language. bytes "BTC: 1";
  price_entry = λ n symbol. none;
  markup_error = λ m. none;
  decode_update = λ payload. malformed (bytes "empty");
}

pub quiet_env-OthersMove : OthersMove quiet_env
quiet_env-OthersMove n d = here

abbrev pub reader : SubscriberRow
reader = record {
  chat_id = pos 5;
  interval_minutes = 60;
  last_sent = 0;
  language_code = "en";
  is_subscribed = true;
  cron_claimed_until = none;
  delivery_suspended_until = none;
}

abbrev pub waiting_row : NotificationRow
waiting_row = record {
  id = 1;
  chat_id = pos 5;
  language_code = "en";
  message_text = bytes "BTC";
  scheduled_at = noon;
  status = JobStatus.pending;
  attempts = 0;
  claim_token = none;
  claimed_until = none;
  next_attempt_at = noon;
  sent_at = none;
  failed_at = none;
  canceled_at = none;
  last_error = none;
  updated_at = noon;
  kind = scheduled;
  price_alert_id = none;
}

abbrev pub small_db : Db
small_db = record {
  subscribers = reader ∷ [];
  notification_jobs = waiting_row ∷ [];
  telegram_updates = [];
  telegram_replies = [];
  price_alerts = [];
  price_alert_crossings = [];
  mutation_versions = [];
  market_prices = [];
  stream_epoch = 0;
  stream_last_received_at = noon;
  job_ids = 1 ∷ [];
  next_reply_id = 1;
  next_alert_id = 1;
}

abbrev pub world_of : Db → World
world_of d = record {
  db = d;
  view = d;
  tx_now = noon;
  writing = false;
  collected = [];
  callbacks = [];
  callback_log = [];
  calls = 0;
  held = [];
  outbox = [];
  counters = [];
}

abbrev pub app : App
app = record {
  bot_token = bytes "123:abc";
  messages = [];
  alert_messages = [];
  price_alerts_enabled = true;
  encode_keyboard = λ k. bytes "{}";
  created_text = λ template a. template;
  triggered_text = λ template a price at. template;
  list_line = λ a state. state;
  clock_text = λ at. bytes "12:00";
}
