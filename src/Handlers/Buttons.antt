-- ===== src/Handlers/Buttons.antt =====
-- The buttons of the list of alerts.
use cryptopulse_telegram_bot.Prelude.{ℕ, ◌<◌, ◌^◌, ◌≡◌, ap, ◌∙◌, arith, some, String, ℤ, pos}
use cryptopulse_telegram_bot.App.{App}
use cryptopulse_telegram_bot.Session.{Env, World}
use cryptopulse_telegram_bot.Strconv.Printing.{atoi-format_int}
use cryptopulse_telegram_bot.Handlers.Alerts.{
  button_pressed, cancel_button, cancel_button_pressed, positive_id,
}

-- The button that the list shows for an alert cancels this alert: its callback data, which holds the id
-- as text, is dispatched to the cancelation of the same id, for every id that a BIGSERIAL column has.
pub button_pressed-cancel_button :
    (env : Env) (app : App) (update_id : ℕ) (chat : ℤ) (lang : String) (id : ℕ) (w : World)
    → 0 < id
    → id < 2 ^ 63
    → button_pressed app env update_id chat lang (cancel_button app lang id).1 w
      ≡ cancel_button_pressed app env chat lang (some id) w
unfolding button_pressed
button_pressed-cancel_button env app update_id chat lang id w h below =
    ap (λ o. cancel_button_pressed app env chat lang (positive_id app o) w)
      (atoi-format_int id below)
    ∙ ap (λ o. cancel_button_pressed app env chat lang o w) valid
  where
    valid : positive_id app (some (pos id)) ≡ some id
    valid = ground (arith, h)
