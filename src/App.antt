-- ===== src/App.antt =====
-- The parts of the App struct (internal/app/app.go) that the handlers read and never change, and
-- safeTelegramError of internal/app/telegram_errors.go. What fmt.Sprintf makes of a template of the
-- catalog and an alert (its floats and its times in Kyiv) is an argument, and so are the hour and minute
-- of a time in Kyiv and json.Marshal of a keyboard.
use cryptopulse_telegram_bot.Prelude.{ℕ, Bool, List}
use cryptopulse_telegram_bot.Schema.{AlertRow}
use cryptopulse_telegram_bot.Bytes.{Bytes}
use cryptopulse_telegram_bot.GoError.{Error}
use cryptopulse_telegram_bot.Telegram.{Catalog, redact_telegram_error}

-- The rows of buttons of a tgbotapi.InlineKeyboardMarkup, each with its text and its callback data.
abbrev pub Keyboard : Type 0
Keyboard = List (List (Bytes × Bytes))

pub record App : Type 0 where
  pub bot_token : Bytes
  pub messages : Catalog
  pub alert_messages : Catalog
  pub price_alerts_enabled : Bool
  pub encode_keyboard : Keyboard → Bytes
  pub created_text : Bytes → AlertRow → Bytes
  pub triggered_text : Bytes → AlertRow → ℕ → ℕ → Bytes
  pub list_line : AlertRow → Bytes → Bytes
  pub clock_text : ℕ → Bytes

unfoldable pub safe_telegram_error : App → Error → Error
unfolding redact_telegram_error
safe_telegram_error a e = redact_telegram_error e a.bot_token
