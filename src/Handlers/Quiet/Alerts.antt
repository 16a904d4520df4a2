-- ===== src/Handlers/Quiet/Alerts.antt =====
-- The same of the commands and the buttons of alerts.
use cryptopulse_telegram_bot.Prelude.{ℕ, not, Option, none, some, List, [], ◌∷◌, String, ℤ}
use cryptopulse_telegram_bot.Bytes.{Bytes, bytes, bytes_eq, has_prefix}
use cryptopulse_telegram_bot.App.{App}
use cryptopulse_telegram_bot.Session.{Env}
use cryptopulse_telegram_bot.Session.Quiet.{
  IsQuiet, IsQuietChange, IsQuiet-bind, IsQuiet-read, IsQuiet-if,
}
use cryptopulse_telegram_bot.Alert.Create.{Creation, problem, created, Listed, list_price_alerts}
use cryptopulse_telegram_bot.Handlers.Quiet.{
  send_safe_message-Quiet, add_callback-Quiet, deferring-Quiet, create_price_alert-Quiet,
  cancel_price_alert-Quiet,
}
use cryptopulse_telegram_bot.Handlers.Alerts.{
  show_price_alert_menu, show_alerts, show_price_alert_list, reply_created, add_parsed,
  add_price_alert_and_reply, handle_price_alert_command, cancel_button_pressed, coin_chosen,
  percent_chosen, button_pressed, handle_price_alert_callback,
}

module _ (env : Env) (app : App) (chat : ℤ) (lang : String) where
  show_price_alert_menu-Quiet : IsQuietChange env (show_price_alert_menu app chat lang)
  unfolding show_price_alert_menu
  show_price_alert_menu-Quiet = send_safe_message-Quiet env app chat _ _

  show_alerts-Quiet : (alerts : List Listed) → IsQuietChange env (show_alerts app chat lang alerts)
  unfolding show_alerts
  show_alerts-Quiet [] = send_safe_message-Quiet env app chat _ _
  show_alerts-Quiet (x ∷ alerts) = send_safe_message-Quiet env app chat _ _

  show_price_alert_list-Quiet : IsQuiet env (show_price_alert_list app env chat lang)
  unfolding show_price_alert_list list_price_alerts
  show_price_alert_list-Quiet = IsQuiet-bind env _ _ (IsQuiet-read env _) show_alerts-Quiet

  reply_created-Quiet : (c : Creation) → IsQuietChange env (reply_created app chat lang c)
  unfolding reply_created
  reply_created-Quiet (problem key) = send_safe_message-Quiet env app chat _ _
  reply_created-Quiet (created alert) = send_safe_message-Quiet env app chat _ _

  add_parsed-Quiet :
      (update_id : ℕ) (symbol : Option Bytes) (percent : Option ℤ)
      → IsQuiet env (add_parsed app env update_id chat lang symbol percent)
  unfolding add_parsed
  add_parsed-Quiet update_id (some symbol) (some percent) =
      IsQuiet-bind env _ _ (create_price_alert-Quiet env update_id chat lang symbol percent)
        reply_created-Quiet
  add_parsed-Quiet update_id none percent = send_safe_message-Quiet env app chat _ _
  add_parsed-Quiet update_id (some symbol) none = send_safe_message-Quiet env app chat _ _

  add_price_alert_and_reply-Quiet :
      (update_id : ℕ) (raw_symbol raw_percent : Bytes)
      → IsQuiet env (add_price_alert_and_reply app env update_id chat lang raw_symbol raw_percent)
  unfolding add_price_alert_and_reply
  add_price_alert_and_reply-Quiet update_id raw_symbol raw_percent =
      IsQuiet-if env (not app.price_alerts_enabled) _ _ show_price_alert_menu-Quiet
        (add_parsed-Quiet update_id _ _)

  pub handle_price_alert_command-Quiet :
      (update_id : ℕ) (arguments : List Bytes)
      → IsQuiet env (handle_price_alert_command app env update_id chat lang arguments)
  unfolding handle_price_alert_command
  handle_price_alert_command-Quiet update_id [] = show_price_alert_menu-Quiet
  handle_price_alert_command-Quiet update_id (a ∷ []) =
      IsQuiet-if env (bytes_eq a (bytes "list")) _ _ show_price_alert_list-Quiet
        (send_safe_message-Quiet env app chat _ _)
  handle_price_alert_command-Quiet update_id (a ∷ b ∷ []) =
      add_price_alert_and_reply-Quiet update_id a b
  handle_price_alert_command-Quiet update_id (a ∷ b ∷ c ∷ arguments) =
      send_safe_message-Quiet env app chat _ _

  cancel_button_pressed-Quiet :
      (id : Option ℕ) → IsQuiet env (cancel_button_pressed app env chat lang id)
  unfolding cancel_button_pressed
  cancel_button_pressed-Quiet none = send_safe_message-Quiet env app chat _ _
  cancel_button_pressed-Quiet (some id) =
      IsQuiet-bind env _ _ (cancel_price_alert-Quiet env chat id)
        (λ canceled. send_safe_message-Quiet env app chat _ _)

  coin_chosen-Quiet : (symbol : Option Bytes) → IsQuietChange env (coin_chosen app chat lang symbol)
  unfolding coin_chosen
  coin_chosen-Quiet none = send_safe_message-Quiet env app chat _ _
  coin_chosen-Quiet (some symbol) = send_safe_message-Quiet env app chat _ _

  percent_chosen-Quiet :
      (update_id : ℕ) (parts : List Bytes)
      → IsQuiet env (percent_chosen app env update_id chat lang parts)
  unfolding percent_chosen
  percent_chosen-Quiet update_id [] = send_safe_message-Quiet env app chat _ _
  percent_chosen-Quiet update_id (a ∷ []) = send_safe_message-Quiet env app chat _ _
  percent_chosen-Quiet update_id (a ∷ b ∷ []) = add_price_alert_and_reply-Quiet update_id a b
  percent_chosen-Quiet update_id (a ∷ b ∷ c ∷ parts) = send_safe_message-Quiet env app chat _ _

  button_pressed-Quiet :
      (update_id : ℕ) (payload : Bytes)
      → IsQuiet env (button_pressed app env update_id chat lang payload)
  unfolding button_pressed
  button_pressed-Quiet update_id payload =
      IsQuiet-if env (bytes_eq payload (bytes "alerts_menu")) _ _ show_price_alert_menu-Quiet (
        IsQuiet-if env (bytes_eq payload (bytes "alerts_list")) _ _ show_price_alert_list-Quiet (
          IsQuiet-if env (has_prefix payload (bytes "alerts_del_")) _ _
            (cancel_button_pressed-Quiet _)
            (IsQuiet-if env (not app.price_alerts_enabled) _ _ show_price_alert_menu-Quiet (
              IsQuiet-if env (has_prefix payload (bytes "alerts_coin_")) _ _ (coin_chosen-Quiet _) (
                IsQuiet-if env (has_prefix payload (bytes "alerts_add_")) _ _
                  (percent_chosen-Quiet update_id _) (send_safe_message-Quiet env app chat _ _))))))

  pub handle_price_alert_callback-Quiet :
      (update_id : ℕ) (callback_id payload : Bytes)
      → IsQuiet env (handle_price_alert_callback app env update_id chat lang callback_id payload)
  unfolding handle_price_alert_callback
  handle_price_alert_callback-Quiet update_id callback_id payload =
      deferring-Quiet env _ _ (add_callback-Quiet env callback_id _)
        (button_pressed-Quiet update_id payload)
