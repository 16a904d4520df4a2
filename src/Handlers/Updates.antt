-- ===== src/Handlers/Updates.antt =====
-- internal/app/telegram_handlers.go: processTelegramUpdateWithDB and unsubscribe.
use cryptopulse_telegram_bot.Prelude.{
  ℕ, ◌/◌, not, ◌||◌, Option, none, some, List, [], ◌∷◌, ◌++◌, String, ℤ, pos, negsuc, drop, leb,
  ◌==◌, if◌then◌else◌,
}
use cryptopulse_telegram_bot.Bytes.{Bytes, bytes, bytes_eq, has_prefix, format_int}
use cryptopulse_telegram_bot.GoError.{plain}
use cryptopulse_telegram_bot.Strconv.{atoi}
use cryptopulse_telegram_bot.Update.{Update, Message, CallbackQuery}
use cryptopulse_telegram_bot.App.{App, Keyboard}
use cryptopulse_telegram_bot.Telegram.{text, alert_text}
use cryptopulse_telegram_bot.Mutation.{is_language, is_interval}
use cryptopulse_telegram_bot.Session.{
  Env, World, Try, ◌>>=◌, ◌>>◌, return, fail, exec, rows_affected, observed, inc,
  db_operations_total,
}
use cryptopulse_telegram_bot.Handlers.Texts.{
  sprintf, language_of, refresh_keyboard, interval_keyboard, alerts_keyboard, language_keyboard,
}
use cryptopulse_telegram_bot.Handlers.Subscribers.{
  set_language, subscribe, update_interval, end_subscription, cancel_scheduled,
}
use cryptopulse_telegram_bot.Handlers.Replies.{
  tell, send_safe_message, edit_safe_message, answer_callback, acknowledge_callback, rescued,
  get_lang_with_db, is_subscribed_with_db,
}
use cryptopulse_telegram_bot.Handlers.Alerts.{
  handle_price_alert_command, handle_price_alert_callback, reply_alert,
}

abbrev pub count : String → String → World → World
count operation status w = (inc (db_operations_total operation status) w).1

-- One change of the collector after another.
infixl 5 ◌then_also◌
abbrev ◌then_also◌ : (World → World) → (World → World) → World → World
(f then_also g) w = g (f w)

-- A nil pointer of a chat, which the caller recovers from.
unfoldable pub nil_chat : Try (Unit {0})
nil_chat = fail (
    plain (
      bytes
        "telegram update processing panic: runtime error: invalid memory address or nil pointer dereference"))

module _ (env : Env) (app : App) (chat : ℤ) where
  abbrev reply : String → String → World → World
  reply lang key = send_safe_message app chat (text app.messages lang key) none

  abbrev reply_with : String → String → Keyboard → World → World
  reply_with lang key keyboard =
      send_safe_message app chat (text app.messages lang key) (some keyboard)

  unfoldable pub set_language_to : Bytes → Bytes → Try (Unit {0})
  set_language_to callback_id new_lang =
      if not (is_language new_lang)
      then tell (answer_callback callback_id (bytes "Invalid Language"))
      else do
        rescued (answer_callback callback_id (bytes "Error") then_also reply "ua" "db_err")
            (observed "set_language" (exec env (set_language chat (language_of new_lang))))
        tell (
            count "set_language" "success"
            then_also acknowledge_callback callback_id
            then_also reply (language_of new_lang) "lang_fixed")

  unfoldable pub interval_answered : Bytes → String → ℕ → ℕ → World → World
  interval_answered callback_id lang minutes affected =
      let unit = text app.messages lang (if leb 60 minutes then "unit_h" else "unit_m") in
      let val = if leb 60 minutes then minutes / 60 else minutes in
      if affected == 0
      then count "update_interval" "inactive"
        then_also answer_callback callback_id (text app.messages lang "subscribe_first")
        then_also reply lang "subscribe_first"
      else count "update_interval" "success"
        then_also acknowledge_callback callback_id
        then_also send_safe_message app chat
            (sprintf (text app.messages lang "interval_set") (format_int (pos val) ∷ unit ∷ []))
            none

  unfoldable pub interval_failed : Bytes → String → World → World
  interval_failed callback_id lang =
      answer_callback callback_id (bytes "Error") then_also reply lang "db_err"

  abbrev valid_minutes : Option ℤ → Option ℕ
  valid_minutes none = none
  valid_minutes (some (negsuc n)) = none
  valid_minutes (some (pos n)) = if is_interval (some (pos n)) then some n else none

  unfoldable pub set_interval_to : Bytes → String → Option ℕ → Try (Unit {0})
  set_interval_to callback_id lang none = tell (answer_callback callback_id (bytes "Invalid Range"))
  set_interval_to callback_id lang (some minutes) = do
    affected ←
        rescued (interval_failed callback_id lang)
          (observed "update_interval" (exec env (update_interval chat minutes)))
    count ←
        rescued (interval_failed callback_id lang)
          (observed "update_interval" (rows_affected env affected))
    tell (interval_answered callback_id lang minutes count)

  -- The prices in the cache as text, in the world of the call.
  abbrev with_prices : String → (Bytes → World → World) → World → World
  with_prices lang change w = change (env.prices w.calls lang) w

  unfoldable pub refresh_prices : Bytes → String → ℕ → World → World
  refresh_prices callback_id lang message_id =
      with_prices lang (λ prices.
        edit_safe_message app chat message_id
          (sprintf (text app.messages lang "price_hdr" ++ bytes "\n\n%s\n\n_%s_")
            (prices ∷ text app.messages lang "dynamics" ∷ []))
          (some (refresh_keyboard app lang)))
      then_also acknowledge_callback callback_id

  unfoldable pub other_callback : ℕ → Bytes → Bytes → ℕ → String → Try (Unit {0})
  other_callback update_id callback_id payload message_id lang =
      if has_prefix payload (bytes "alerts_")
      then handle_price_alert_callback app env update_id chat lang callback_id payload
      else if has_prefix payload (bytes "int_")
      then set_interval_to callback_id lang (valid_minutes (atoi (drop 4 payload)))
      else if bytes_eq payload (bytes "refresh_price")
      then tell (refresh_prices callback_id lang message_id)
      else return tt

  unfoldable pub process_callback : ℕ → Bytes → Bytes → ℕ → Try (Unit {0})
  process_callback update_id callback_id payload message_id =
      if has_prefix payload (bytes "setlang_")
      then set_language_to callback_id (drop 8 payload)
      else do
        lang ← get_lang_with_db env chat
        other_callback update_id callback_id payload message_id lang

  -- unsubscribe
  unfoldable pub unsubscribe : Try (Unit {0})
  unsubscribe = do exec env (end_subscription chat); exec env (cancel_scheduled chat)

  -- strings.Split(cmd, "@")[0]
  abbrev before_at : Bytes → Bytes
  before_at [] = []
  before_at (c ∷ cmd) = let rest = before_at cmd in if c == b'@' then [] else c ∷ rest

  unfoldable pub start_command : String → World → World
  start_command lang =
      reply lang "welcome"
      then_also (if app.price_alerts_enabled
          then send_safe_message app chat (alert_text app.alert_messages lang "menu")
              (some (alerts_keyboard app lang))
          else λ w. w)

  unfoldable pub subscribe_command : String → Try (Unit {0})
  subscribe_command lang = do
    rescued (reply lang "db_err") (observed "subscribe" (exec env (subscribe chat lang)))
    tell (count "subscribe" "success" then_also reply lang "subscribe")

  unfoldable pub unsubscribe_command : String → Try (Unit {0})
  unsubscribe_command lang = do
    rescued (reply lang "db_err") (observed "unsubscribe" unsubscribe)
    tell (
        count "unsubscribe" "success"
        then_also reply lang "unsubscribe"
        then_also (if app.price_alerts_enabled
            then reply_alert app chat lang "independent"
            else λ w. w))

  unfoldable pub interval_command : String → Try (Unit {0})
  interval_command lang = do
    subscribed ← rescued (reply lang "db_err") (is_subscribed_with_db env chat)
    tell (
        if subscribed
        then reply_with lang "interval_m" (interval_keyboard app lang)
        else reply lang "subscribe_first")

  unfoldable pub price_command : String → World → World
  price_command lang = with_prices lang (λ prices.
      send_safe_message app chat
        (sprintf (text app.messages lang "price_hdr" ++ bytes "\n\n%s") (prices ∷ []))
        (some (refresh_keyboard app lang)))

  unfoldable pub run_command : ℕ → Bytes → List Bytes → String → Try (Unit {0})
  run_command update_id cmd arguments lang =
      if bytes_eq cmd (bytes "alerts") || bytes_eq cmd (bytes "allerts")
      then handle_price_alert_command app env update_id chat lang arguments
      else if bytes_eq cmd (bytes "start")
      then tell (start_command lang)
      else if bytes_eq cmd (bytes "language")
      then tell (reply_with lang "lang_sel" language_keyboard)
      else if bytes_eq cmd (bytes "subscribe")
      then subscribe_command lang
      else if bytes_eq cmd (bytes "unsubscribe")
      then unsubscribe_command lang
      else if bytes_eq cmd (bytes "interval")
      then interval_command lang
      else if bytes_eq cmd (bytes "price")
      then tell (price_command lang)
      else return tt

  unfoldable pub process_command : ℕ → Message → Try (Unit {0})
  process_command update_id m = do
    lang ← get_lang_with_db env chat
    run_command update_id (before_at m.command) m.arguments lang

module _ (env : Env) (app : App) where
  unfoldable pub callback_of : ℕ → CallbackQuery → Option Message → Try (Unit {0})
  callback_of update_id q none = return tt
  callback_of update_id q (some m) = elim m.chat [
    | none ↦ nil_chat
    | some chat ↦ process_callback env app chat update_id q.id q.payload m.message_id
  ]

  unfoldable pub message_of : ℕ → Option Message → Try (Unit {0})
  message_of update_id none = return tt
  message_of update_id (some m) = elim m.chat [
    | none ↦ nil_chat
    | some chat ↦ process_command env app chat update_id m
  ]

  -- processTelegramUpdateWithDB
  unfoldable pub process_telegram_update_with_db : Update → Try (Unit {0})
  process_telegram_update_with_db u = elim u.callback_query [
    | some q ↦ callback_of u.update_id q q.message
    | none ↦ message_of u.update_id u.message
  ]
