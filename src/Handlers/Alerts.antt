-- ===== src/Handlers/Alerts.antt =====
-- internal/app/price_alert_handlers.go: the commands and the buttons of price alerts.
use cryptopulse_telegram_bot.Prelude.{
  ℕ, not, Option, none, some, List, [], ◌∷◌, ◌++◌, String, ℤ, pos, negsuc, length, drop, ◌==◌,
  if◌then◌else◌,
}
use cryptopulse_telegram_bot.Bytes.{Bytes, bytes, bytes_eq, has_prefix, format_int}
use cryptopulse_telegram_bot.Schema.{AlertStatus, JobStatus}
use cryptopulse_telegram_bot.Strconv.{atoi}
use cryptopulse_telegram_bot.App.{App, Keyboard}
use cryptopulse_telegram_bot.Telegram.{alert_text}
use cryptopulse_telegram_bot.Session.{Env, World, Result, Try, ◌>>=◌}
use cryptopulse_telegram_bot.Alert.Input.{alert_symbol, parse_alert_percent, trim_suffix}
use cryptopulse_telegram_bot.Alert.Create.{
  Creation, problem, created, create_price_alert, Listed, listed_live, list_price_alerts,
  cancel_price_alert,
}
use cryptopulse_telegram_bot.Handlers.Texts.{
  sprintf, alerts_keyboard, alert_percent_keyboard, back_row,
}
use cryptopulse_telegram_bot.Handlers.Replies.{tell, send_safe_message, acknowledge_callback}

-- strings.Split at a byte
unfoldable pub split : ℕ → Bytes → Bytes → List Bytes
split separator part [] = part ∷ []
split separator part (c ∷ text) =
    let ended = part ∷ split separator [] text in
    let longer = split separator (part ++ c ∷ []) text in if c == separator then ended else longer

-- strings.Join(lines, "\n")
unfoldable pub join_lines : List Bytes → Bytes
join_lines [] = []
join_lines (line ∷ []) = line
join_lines (line ∷ next ∷ lines) = line ++ 10 ∷ join_lines (next ∷ lines)

-- The key of the text for the status of an alert, or of its notification if it has one.
abbrev state_of_alert : AlertStatus → String
state_of_alert AlertStatus.active = "active"
state_of_alert AlertStatus.triggered = "triggered"
state_of_alert AlertStatus.canceled = "canceled_state"

abbrev state_of_job : JobStatus → String
state_of_job JobStatus.pending = "pending"
state_of_job JobStatus.sending = "sending"
state_of_job JobStatus.sent = "sent"
state_of_job JobStatus.failed = "failed"
state_of_job JobStatus.canceled = "canceled_state"

abbrev pub state_of : Listed → String
state_of (a, none) = state_of_alert a.status
state_of (a, some s) = state_of_job s

module _ (app : App) where
  unfoldable pub show_price_alert_menu : ℤ → String → World → World
  show_price_alert_menu chat lang =
      send_safe_message app chat
        (alert_text app.alert_messages lang
          (if app.price_alerts_enabled then "menu" else "disabled"))
        (some (alerts_keyboard app lang))

  -- A reply with a text of the alerts and no keyboard.
  abbrev pub reply_alert : ℤ → String → String → World → World
  reply_alert chat lang key =
      send_safe_message app chat (alert_text app.alert_messages lang key) none

  unfoldable pub alert_lines : String → List Listed → List Bytes
  alert_lines lang [] = []
  alert_lines lang (x ∷ alerts) =
      app.list_line x.0 (alert_text app.alert_messages lang (state_of x)) ∷ alert_lines lang alerts

  abbrev pub cancel_button : String → ℕ → Bytes × Bytes
  cancel_button lang id = (
    sprintf (alert_text app.alert_messages lang "cancel") (format_int (pos id) ∷ []),
    bytes "alerts_del_" ++ format_int (pos id),
  )

  unfoldable pub alert_rows : String → List Listed → Keyboard
  alert_rows lang [] = back_row app lang ∷ []
  alert_rows lang (x ∷ alerts) =
      let rest = alert_rows lang alerts in
      if listed_live x then (cancel_button lang x.0.id ∷ []) ∷ rest else rest

  unfoldable pub show_alerts : ℤ → String → List Listed → World → World
  show_alerts chat lang [] =
      send_safe_message app chat (alert_text app.alert_messages lang "empty")
        (some (alerts_keyboard app lang))
  show_alerts chat lang (x ∷ alerts) =
      send_safe_message app chat
        (join_lines (
          (b'*' ∷ alert_text app.alert_messages lang "list" ++ b'*' ∷ [])
          ∷ alert_lines lang (x ∷ alerts)))
        (some (alert_rows lang (x ∷ alerts)))

  unfoldable pub show_price_alert_list : Env → ℤ → String → Try (Unit {0})
  show_price_alert_list env chat lang = do
    alerts ← list_price_alerts env chat
    tell (show_alerts chat lang alerts)

  unfoldable pub reply_created : ℤ → String → Creation → World → World
  reply_created chat lang (problem key) = reply_alert chat lang key
  reply_created chat lang (created alert) =
      send_safe_message app chat
        (app.created_text (alert_text app.alert_messages lang "created") alert)
        (some (alerts_keyboard app lang))

  unfoldable pub add_parsed : Env → ℕ → ℤ → String → Option Bytes → Option ℤ → Try (Unit {0})
  add_parsed env update_id chat lang (some symbol) (some percent) = do
    c ← create_price_alert env update_id chat lang symbol percent
    tell (reply_created chat lang c)
  add_parsed env update_id chat lang none percent = tell (reply_alert chat lang "invalid")
  add_parsed env update_id chat lang (some symbol) none = tell (reply_alert chat lang "invalid")

  unfoldable pub add_price_alert_and_reply : Env → ℕ → ℤ → String → Bytes → Bytes → Try (Unit {0})
  add_price_alert_and_reply env update_id chat lang raw_symbol raw_percent =
      if not app.price_alerts_enabled
      then tell (show_price_alert_menu chat lang)
      else add_parsed env update_id chat lang (alert_symbol raw_symbol)
          (parse_alert_percent raw_percent)

  unfoldable pub handle_price_alert_command : Env → ℕ → ℤ → String → List Bytes → Try (Unit {0})
  handle_price_alert_command env update_id chat lang [] = tell (show_price_alert_menu chat lang)
  handle_price_alert_command env update_id chat lang (a ∷ []) =
      if bytes_eq a (bytes "list")
      then show_price_alert_list env chat lang
      else tell (reply_alert chat lang "invalid")
  handle_price_alert_command env update_id chat lang (a ∷ b ∷ []) =
      add_price_alert_and_reply env update_id chat lang a b
  handle_price_alert_command env update_id chat lang (a ∷ b ∷ c ∷ args) =
      tell (reply_alert chat lang "invalid")

  abbrev pub positive_id : Option ℤ → Option ℕ
  positive_id none = none
  positive_id (some (pos n)) = if n == 0 then none else some n
  positive_id (some (negsuc n)) = none

  unfoldable pub cancel_button_pressed : Env → ℤ → String → Option ℕ → Try (Unit {0})
  cancel_button_pressed env chat lang none = tell (reply_alert chat lang "not_found")
  cancel_button_pressed env chat lang (some id) = do
    canceled ← cancel_price_alert env chat id
    tell (reply_alert chat lang (if canceled then "canceled" else "not_found"))

  unfoldable pub coin_chosen : ℤ → String → Option Bytes → World → World
  coin_chosen chat lang none = reply_alert chat lang "invalid"
  coin_chosen chat lang (some symbol) =
      let coin = trim_suffix symbol (bytes "USDT") in
      send_safe_message app chat (sprintf (alert_text app.alert_messages lang "coin") (coin ∷ []))
        (some (alert_percent_keyboard app lang coin))

  unfoldable pub percent_chosen : Env → ℕ → ℤ → String → List Bytes → Try (Unit {0})
  percent_chosen env update_id chat lang [] = tell (reply_alert chat lang "invalid")
  percent_chosen env update_id chat lang (a ∷ []) = tell (reply_alert chat lang "invalid")
  percent_chosen env update_id chat lang (a ∷ b ∷ []) =
      add_price_alert_and_reply env update_id chat lang a b
  percent_chosen env update_id chat lang (a ∷ b ∷ c ∷ parts) =
      tell (reply_alert chat lang "invalid")

  abbrev pub after_prefix : String → Bytes → Bytes
  after_prefix prefix payload = drop (length (bytes prefix)) payload

  unfoldable pub button_pressed : Env → ℕ → ℤ → String → Bytes → Try (Unit {0})
  button_pressed env update_id chat lang payload =
      if bytes_eq payload (bytes "alerts_menu")
      then tell (show_price_alert_menu chat lang)
      else if bytes_eq payload (bytes "alerts_list")
      then show_price_alert_list env chat lang
      else if has_prefix payload (bytes "alerts_del_")
      then cancel_button_pressed env chat lang
          (positive_id (atoi (after_prefix "alerts_del_" payload)))
      else if not app.price_alerts_enabled
      then tell (show_price_alert_menu chat lang)
      else if has_prefix payload (bytes "alerts_coin_")
      then tell (coin_chosen chat lang (alert_symbol (after_prefix "alerts_coin_" payload)))
      else if has_prefix payload (bytes "alerts_add_")
      then percent_chosen env update_id chat lang
          (split b'_' [] (after_prefix "alerts_add_" payload))
      else tell (reply_alert chat lang "invalid")

-- A deferred call runs on every way out.
unfoldable pub deferring : {A : Type 0} → (World → World) → Result A × World → Result A × World
deferring change (r, w) = (r, change w)

unfoldable pub handle_price_alert_callback :
    App → Env → ℕ → ℤ → String → Bytes → Bytes → Try (Unit {0})
handle_price_alert_callback app env update_id chat lang callback_id payload w =
    deferring (acknowledge_callback callback_id)
      (button_pressed app env update_id chat lang payload w)
