-- ===== src/Alert/Create.antt =====
-- createPriceAlert, listPriceAlerts and cancelPriceAlert, which run in the transaction of an update.
use cryptopulse_telegram_bot.Prelude.{
  ℕ, Bool, true, false, ◌&&◌, ◌||◌, Option, none, some, List, map, String, ltb, leb, ◌==◌,
  is_some_eq, ℤ, eqb_ℤ, if◌then◌else◌, select, take,
}
use cryptopulse_telegram_bot.Bytes.{Bytes}
use cryptopulse_telegram_bot.Schema.{AlertRow, AlertStatus, NotificationRow, JobStatus, Db, is_open}
use cryptopulse_telegram_bot.Table.{find, order_by}
use cryptopulse_telegram_bot.Pricing.{price_age, price_freshness_limit}
use cryptopulse_telegram_bot.Update.{PriceEntry}
use cryptopulse_telegram_bot.Session.{Env, Try, ◌>>=◌, ◌>>◌, return, read, exec, rows_affected}
use cryptopulse_telegram_bot.Alert.Input.{alert_target}
use cryptopulse_telegram_bot.Alert.Rows.{
  is_active, live_alerts, insert_alert, cancel_alert, cancel_jobs,
}

abbrev pub max_active_price_alerts : ℕ
max_active_price_alerts = 10

-- A new alert, or the key of the text that says what is wrong.
pub data Creation : Type 0 where
  problem : String → Creation
  created : AlertRow → Creation

-- The alert as the INSERT gets it.
abbrev pub new_alert : ℕ → ℤ → String → Bytes → ℤ → PriceEntry → ℕ → ℕ → AlertRow
new_alert update_id chat_id lang symbol percent entry target created_at = record {
  id = 0;
  chat_id = chat_id;
  source_update_id = update_id;
  symbol = symbol;
  language_code = lang;
  change_percent = percent;
  base_price = entry.current;
  base_price_at = entry.updated_at;
  target_price = target;
  status = AlertStatus.active;
  trigger_price = none;
  triggered_at = none;
  created_at = created_at;
  updated_at = created_at;
}

abbrev pub creation_of : AlertRow → Option ℕ → Creation
creation_of row none = problem "duplicate"
creation_of row (some id) = created (record row { id = id })

-- The INSERT asks clock_timestamp() when it runs.
unfoldable pub insert_new : Env → (ℕ → AlertRow) → Try Creation
insert_new env row w =
    (do
      id ← exec env (insert_alert (row (env.clock w.calls)))
      return (creation_of (row (env.clock w.calls)) id))
      w

abbrev pub counted : Env → ℤ → Try (ℕ × ℕ)
counted env chat_id w = read env (λ now db. (live_alerts chat_id db, env.clock w.calls)) w

abbrev pub is_stale : PriceEntry → ℕ → Bool
is_stale entry now =
    ltb now entry.updated_at || ltb price_freshness_limit (price_age now entry.updated_at)

unfoldable pub create_counted : Env → ℤ → PriceEntry → (ℕ → AlertRow) → ℕ × ℕ → Try Creation
create_counted env chat_id entry row (count, now) =
    if is_stale entry now
    then return (problem "stale")
    else if leb max_active_price_alerts count
    then return (problem "limit")
    else insert_new env row

unfoldable pub create_at : Env → ℕ → ℤ → String → Bytes → ℤ → PriceEntry → Option ℕ → Try Creation
create_at env update_id chat_id lang symbol percent entry none = return (problem "invalid")
create_at env update_id chat_id lang symbol percent entry (some target) = do
  c ← counted env chat_id
  create_counted env chat_id entry (new_alert update_id chat_id lang symbol percent entry target) c

unfoldable pub create_from : Env → ℕ → ℤ → String → Bytes → ℤ → Option PriceEntry → Try Creation
create_from env update_id chat_id lang symbol percent none = return (problem "stale")
create_from env update_id chat_id lang symbol percent (some entry) =
    if entry.updated_at == 0
    then return (problem "stale")
    else create_at env update_id chat_id lang symbol percent entry
        (alert_target entry.current percent)

-- createPriceAlert
unfoldable pub create_price_alert : Env → ℕ → ℤ → String → Bytes → ℤ → Try Creation
create_price_alert env update_id chat_id lang symbol percent w =
    create_from env update_id chat_id lang symbol percent (env.price_entry w.calls symbol) w

-- An alert and the status of its job, if it has one (COALESCE(nj.status, '')).
abbrev pub Listed : Type 0
Listed = AlertRow × Option JobStatus

abbrev job_status : Option NotificationRow → Option JobStatus
job_status none = none
job_status (some j) = some j.status

abbrev listed : Db → AlertRow → Listed
listed db a = (a, job_status (find (λ j. is_some_eq j.price_alert_id a.id) db.notification_jobs))

abbrev open_status : Option JobStatus → Bool
open_status none = false
open_status (some s) = is_open s

-- status = 'active' OR nj.status IN ('pending', 'sending')
abbrev pub listed_live : Listed → Bool
listed_live (a, s) = is_active a.status || open_status s

-- The sort key is true, false, or NULL where an alert that is not active has no job (NULLS LAST).
abbrev rank : Listed → ℕ
rank (a, none) = if is_active a.status then 0 else 2
rank (a, some s) = if is_active a.status || is_open s then 0 else 1

-- ORDER BY (…) DESC NULLS LAST, pa.id DESC
abbrev pub listed_before : Listed → Listed → Bool
listed_before x y = ltb (rank x) (rank y) || (rank x == rank y && leb y.0.id x.0.id)

unfoldable pub alert_list : ℤ → ℕ → Db → List Listed
alert_list chat_id now db = take 20 (
    order_by listed_before
      (map (listed db) (select (λ a. eqb_ℤ a.chat_id chat_id) db.price_alerts)))

-- listPriceAlerts
unfoldable pub list_price_alerts : Env → ℤ → Try (List Listed)
list_price_alerts env chat_id = read env (alert_list chat_id)

unfoldable pub cancel_found : Env → ℕ → ℤ → ℕ → Try Bool
cancel_found env id chat_id count =
    if count == 0 then return false else do exec env (cancel_jobs id chat_id); return true

-- cancelPriceAlert
unfoldable pub cancel_price_alert : Env → ℤ → ℕ → Try Bool
cancel_price_alert env chat_id id = do
  affected ← exec env (cancel_alert id chat_id)
  count ← rows_affected env affected
  cancel_found env id chat_id count
