-- ===== src/Update.antt =====
-- What the code reads of a tgbotapi.Update, and what its processing collects: TelegramReply and
-- telegramCallbackAnswer of internal/app/telegram_reply_outbox.go. And PriceEntry of
-- internal/app/app.go.
use cryptopulse_telegram_bot.Prelude.{ℕ, Option, none, some, List, ℤ}
use cryptopulse_telegram_bot.Bytes.{Bytes}
use cryptopulse_telegram_bot.Schema.{ReplyOperation}

-- A message: its chat, unless the pointer is nil, its id, what Command() returns, and the fields of
-- what CommandArguments() returns (strings.Fields).
pub record Message : Type 0 where
  pub chat : Option ℤ
  pub message_id : ℕ
  pub command : Bytes
  pub arguments : List Bytes

pub record CallbackQuery : Type 0 where
  pub id : Bytes
  pub payload : Bytes
  pub message : Option Message

-- The kinds of updates; a pointer that is nil is none.
pub record Update : Type 0 where
  pub update_id : ℕ
  pub message : Option Message
  pub callback_query : Option CallbackQuery
  pub edited_message : Option Message
  pub channel_post : Option Message
  pub edited_channel_post : Option Message

-- json.Unmarshal into an Update
pub data DecodedUpdate : Type 0 where
  malformed : Bytes → DecodedUpdate
  decoded : Update → DecodedUpdate

abbrev chat_of : Option Message → Option ℤ
chat_of none = none
chat_of (some m) = m.chat

abbrev callback_message : Option CallbackQuery → Option Message
callback_message none = none
callback_message (some q) = q.message

infixr 20 ◌or_next◌
abbrev ◌or_next◌ : Option ℤ → Option ℤ → Option ℤ
none or_next b = b
(some a) or_next b = some a

-- telegramUpdateChatID
unfoldable pub telegram_update_chat_id : Update → Option ℤ
telegram_update_chat_id u =
    chat_of u.message
    or_next chat_of (callback_message u.callback_query)
    or_next chat_of u.edited_message
    or_next chat_of u.channel_post
    or_next chat_of u.edited_channel_post

-- ReplyMarkup is the JSON text of a keyboard, empty without one.
pub record TelegramReply : Type 0 where
  pub operation : ReplyOperation
  pub chat_id : ℤ
  pub message_id : ℕ
  pub text : Bytes
  pub reply_markup : Bytes

pub record CallbackAnswer : Type 0 where
  pub callback_id : Bytes
  pub text : Bytes

-- Prices are bit patterns of float64.
pub record PriceEntry : Type 0 where
  pub current : ℕ
  pub previous : ℕ
  pub updated_at : ℕ
