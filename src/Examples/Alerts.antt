-- ===== src/Examples/Alerts.antt =====
-- Alerts at concrete inputs.
use cryptopulse_telegram_bot.Prelude.{ℕ, ◌≡◌, refl, none, some, [], ◌∷◌, arith, pos, negsuc}
use cryptopulse_telegram_bot.Bytes.{bytes}
use cryptopulse_telegram_bot.Schema.{AlertRow, AlertStatus, Db}
use cryptopulse_telegram_bot.Float.{times, divided_by}
use cryptopulse_telegram_bot.Alert.Input.{alert_symbol, parse_alert_percent, alert_target}
use cryptopulse_telegram_bot.Alert.Rows.{Crossing}
use cryptopulse_telegram_bot.Alert.Create.{create_price_alert}
use cryptopulse_telegram_bot.Alert.Crossings.{trigger_price_alert}
use cryptopulse_telegram_bot.Alert.Fires.{TriggerOutcome}
use cryptopulse_telegram_bot.Alert.OneShot.{OneShot, trigger_price_alert-OneShot}
use cryptopulse_telegram_bot.Alert.Limit.{AtMost, create_price_alert-AtMost}
use cryptopulse_telegram_bot.Examples.{noon, quiet_env, small_db, world_of, app}

-- 50000 and 52500 as float64
abbrev pub base : ℕ
base = 0x40E86A0000000000

abbrev pub target : ℕ
target = 0x40E9A28000000000

test_target : alert_target base (pos 500) ≡ some target
unfolding alert_target divided_by times
test_target = refl

test_symbol : alert_symbol (bytes "btc") ≡ some (bytes "BTCUSDT")
unfolding alert_symbol
test_symbol = refl

test_percent : parse_alert_percent (bytes "+7,5%") ≡ some (pos 750)
unfolding parse_alert_percent
test_percent = refl

test_percent_down : parse_alert_percent (bytes "-99.99") ≡ some (negsuc 9998)
unfolding parse_alert_percent
test_percent_down = refl

test_percent_zero : parse_alert_percent (bytes "0.00") ≡ none
unfolding parse_alert_percent
test_percent_zero = refl

abbrev pub waiting_alert : AlertRow
waiting_alert = record {
  id = 1;
  chat_id = pos 5;
  source_update_id = 7;
  symbol = bytes "BTCUSDT";
  language_code = "en";
  change_percent = pos 500;
  base_price = base;
  base_price_at = noon;
  target_price = target;
  status = AlertStatus.active;
  trigger_price = none;
  triggered_at = none;
  created_at = noon;
  updated_at = noon;
}

abbrev pub alert_db : Db
alert_db = record small_db { price_alerts = waiting_alert ∷ []; next_alert_id = 2 }

abbrev crossing : Crossing
crossing = record { alert_id = 1; chat_id = pos 5; price = target; observed_at = noon }

alert_db-OneShot : OneShot alert_db
alert_db-OneShot id = ground arith

trigger_example :
    OneShot (trigger_price_alert quiet_env app crossing (world_of alert_db)).1.db
    × TriggerOutcome crossing alert_db alert_db
        (trigger_price_alert quiet_env app crossing (world_of alert_db))
trigger_example =
    trigger_price_alert-OneShot quiet_env app crossing (λ n d one. one) (world_of alert_db)
      alert_db-OneShot

limit_example :
    AtMost quiet_env
      (pos 5)
      10
      (create_price_alert quiet_env 8
        (pos 5)
        "en"
        (bytes "BTCUSDT")
        (pos 500)
        (world_of alert_db)).1
limit_example =
    create_price_alert-AtMost quiet_env (pos 5) (λ n d. omega arith) 8 "en" (bytes "BTCUSDT")
      (pos 500) (world_of alert_db) (omega arith)
