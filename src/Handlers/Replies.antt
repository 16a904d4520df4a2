-- ===== src/Handlers/Replies.antt =====
-- The collector of replies and callback answers (internal/app/telegram_reply_outbox.go), sendSafeMessage,
-- editSafeMessage, answerCallback and acknowledgeCallback with a collector in their context, and
-- getLangWithDB and isSubscribedWithDB of internal/app/pricing.go. All keyboards are of the two types
-- that encodeTelegramReplyMarkup admits, and json.Marshal of them does not fail.
use cryptopulse_telegram_bot.Prelude.{
  ℕ, Bool, false, Option, none, some, [], ◌∷◌, ◌++◌, String, ℤ, if◌then◌else◌,
}
use cryptopulse_telegram_bot.Bytes.{Bytes}
use cryptopulse_telegram_bot.Schema.{SubscriberRow, send_message, edit_message}
use cryptopulse_telegram_bot.Update.{TelegramReply}
use cryptopulse_telegram_bot.App.{App, Keyboard}
use cryptopulse_telegram_bot.Telegram.{allowed_language}
use cryptopulse_telegram_bot.Session.{
  Env, World, Result, Try, ok, err, ◌>>=◌, read, observed, inc, db_operations_total,
}
use cryptopulse_telegram_bot.Handlers.Subscribers.{stored_language, stored_subscriber}

-- A step that changes the world and does not fail.
abbrev pub tell : (World → World) → Try (Unit {0})
tell change w = (ok tt, change w)

unfoldable pub add : TelegramReply → World → World
add reply w = record w { collected = w.collected ++ reply ∷ [] }

unfoldable pub add_callback : Bytes → Bytes → World → World
add_callback callback_id text w = record w {
  callbacks = w.callbacks ++ record { callback_id = callback_id; text = text } ∷ [];
}

unfoldable pub encode_telegram_reply_markup : App → Option Keyboard → Bytes
encode_telegram_reply_markup app none = []
encode_telegram_reply_markup app (some keyboard) = app.encode_keyboard keyboard

unfoldable pub send_safe_message : App → ℤ → Bytes → Option Keyboard → World → World
send_safe_message app chat_id text markup = add (record {
  operation = send_message;
  chat_id = chat_id;
  message_id = 0;
  text = text;
  reply_markup = encode_telegram_reply_markup app markup;
})

unfoldable pub edit_safe_message : App → ℤ → ℕ → Bytes → Option Keyboard → World → World
edit_safe_message app chat_id message_id text markup = add (record {
  operation = edit_message;
  chat_id = chat_id;
  message_id = message_id;
  text = text;
  reply_markup = encode_telegram_reply_markup app markup;
})

abbrev pub answer_callback : Bytes → Bytes → World → World
answer_callback = add_callback

abbrev pub acknowledge_callback : Bytes → World → World
acknowledge_callback callback_id = answer_callback callback_id []

-- What a handler does before it returns an error.
unfoldable pub on_error : {A : Type 0} → (World → World) → Result A × World → Result A × World
on_error change (ok a, w) = (ok a, w)
on_error change (err e, w) = (err e, change w)

abbrev pub rescued : {A : Type 0} → (World → World) → Try A → Try A
rescued change m w = on_error change (m w)

abbrev known_language : Option String → String
known_language none = "ua"
known_language (some lang) = if allowed_language lang then lang else "ua"

unfoldable pub or_ukrainian : Result (Option String) × World → Result String × World
or_ukrainian (ok lang, w) = (ok (known_language lang), w)
or_ukrainian (err e, w) = (ok "ua", w)

-- getLangWithDB: without a row, and on an error, the language is Ukrainian.
unfoldable pub get_lang_with_db : Env → ℤ → Try String
get_lang_with_db env chat_id w = or_ukrainian (read env (stored_language chat_id) w)

abbrev check_subscription : String
check_subscription = "check_subscription"

unfoldable pub checked : Option SubscriberRow → Try Bool
checked none w = (ok false, (inc (db_operations_total check_subscription "not_found") w).1)
checked (some s) w = (
  ok s.is_subscribed,
  (inc (db_operations_total check_subscription (if s.is_subscribed then "active" else "inactive"))
      w).1,
)

-- isSubscribedWithDB
unfoldable pub is_subscribed_with_db : Env → ℤ → Try Bool
is_subscribed_with_db env chat_id = do
  s ← observed check_subscription (read env (stored_subscriber chat_id))
  checked s
