-- ===== src/Handlers/Texts.antt =====
-- The keyboards of internal/telegram/catalog.go and internal/telegram/alerts.go, and fmt.Sprintf as far
-- as their templates and those of the handlers need it.
use cryptopulse_telegram_bot.Prelude.{
  ℕ, List, [], ◌∷◌, ◌++◌, String, ◌==◌, ◌||◌, ◌&&◌, if◌then◌else◌,
}
use cryptopulse_telegram_bot.Bytes.{Bytes, bytes, bytes_eq}
use cryptopulse_telegram_bot.App.{App, Keyboard}
use cryptopulse_telegram_bot.Telegram.{text, alert_text}

-- fmt.Sprintf with the verbs %s, %d and %%, each argument as the text that its verb makes of it.
unfoldable pub sprintf : Bytes → List Bytes → Bytes
sprintf [] args = []
sprintf (c ∷ []) args = c ∷ []
sprintf (c ∷ d ∷ template) [] =
    let escaped = b'%' ∷ sprintf template [] in
    let plain = c ∷ sprintf (d ∷ template) [] in if c == b'%' && d == b'%' then escaped else plain
sprintf (c ∷ d ∷ template) (a ∷ args) =
    let escaped = b'%' ∷ sprintf template (a ∷ args) in
    let replaced = a ++ sprintf template args in
    let plain = c ∷ sprintf (d ∷ template) (a ∷ args) in
    if c == b'%' && d == b'%'
    then escaped
    else if c == b'%' && (d == b's' || d == b'd')
    then replaced
    else plain

-- A language that AllowedLanguage admits, as the key of a catalog.
abbrev pub language_of : Bytes → String
language_of b =
    if bytes_eq b (bytes "en") then "en" else if bytes_eq b (bytes "ru") then "ru" else "ua"

module _ (app : App) where
  unfoldable pub refresh_keyboard : String → Keyboard
  refresh_keyboard language =
      ((text app.messages language "btn_upd", bytes "refresh_price") ∷ []) ∷ []

  unfoldable pub interval_keyboard : String → Keyboard
  interval_keyboard language =
      let minutes = text app.messages language "unit_m" in
      let hours = text app.messages language "unit_h" in
      ((bytes "1 " ++ minutes, bytes "int_1")
        ∷ (bytes "5 " ++ minutes, bytes "int_5")
        ∷ (bytes "10 " ++ minutes, bytes "int_10")
        ∷ [])
      ∷ ((bytes "15 " ++ minutes, bytes "int_15")
          ∷ (bytes "30 " ++ minutes, bytes "int_30")
          ∷ (bytes "1 " ++ hours, bytes "int_60")
          ∷ [])
      ∷ ((bytes "3 " ++ hours, bytes "int_180")
          ∷ (bytes "6 " ++ hours, bytes "int_360")
          ∷ (bytes "12 " ++ hours, bytes "int_720")
          ∷ [])
      ∷ []

  unfoldable pub alerts_keyboard : String → Keyboard
  alerts_keyboard lang =
      ((bytes "BTC", bytes "alerts_coin_BTC") ∷ (bytes "ETH", bytes "alerts_coin_ETH") ∷ [])
      ∷ ((bytes "SOL", bytes "alerts_coin_SOL") ∷ (bytes "BNB", bytes "alerts_coin_BNB") ∷ [])
      ∷ ((alert_text app.alert_messages lang "list", bytes "alerts_list") ∷ [])
      ∷ []

  abbrev pub back_row : String → List (Bytes × Bytes)
  back_row lang = (alert_text app.alert_messages lang "back", bytes "alerts_menu") ∷ []

  abbrev percent_row : String → Bytes → Bytes → List (Bytes × Bytes)
  percent_row lang coin percent =
      (
        sprintf (alert_text app.alert_messages lang "up") (percent ∷ []),
        bytes "alerts_add_" ++ coin ++ bytes "_+" ++ percent,
      )
      ∷ (
        sprintf (alert_text app.alert_messages lang "down") (percent ∷ []),
        bytes "alerts_add_" ++ coin ++ bytes "_-" ++ percent,
      )
      ∷ []

  unfoldable pub alert_percent_keyboard : String → Bytes → Keyboard
  alert_percent_keyboard lang coin =
      percent_row lang coin (bytes "5")
      ∷ percent_row lang coin (bytes "10")
      ∷ percent_row lang coin (bytes "20")
      ∷ back_row lang
      ∷ []

-- The flags in front are regional indicators, in UTF-8.
abbrev flag : ℕ → ℕ → Bytes → Bytes
flag a b name = 0xF0 ∷ 0x9F ∷ 0x87 ∷ a ∷ 0xF0 ∷ 0x9F ∷ 0x87 ∷ b ∷ b' ' ∷ name

unfoldable pub language_keyboard : Keyboard
language_keyboard =
    ((flag 0xBA 0xA6 (bytes "UA"), bytes "setlang_ua")
      ∷ (flag 0xBA 0xB8 (bytes "EN"), bytes "setlang_en")
      ∷ (flag 0xB7 0xBA (bytes "RU"), bytes "setlang_ru")
      ∷ [])
    ∷ []
