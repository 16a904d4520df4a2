-- ===== src/Handlers/Quiet/Updates.antt =====
-- The same of processTelegramUpdateWithDB.
use cryptopulse_telegram_bot.Prelude.{
  ℕ, Bool, true, false, not, ◌||◌, Option, none, some, List, String, ℤ, ◌==◌, if◌then◌else◌,
}
use cryptopulse_telegram_bot.Bytes.{Bytes, bytes, bytes_eq, has_prefix}
use cryptopulse_telegram_bot.App.{App, Keyboard}
use cryptopulse_telegram_bot.Mutation.{is_language}
use cryptopulse_telegram_bot.Update.{Update, Message, CallbackQuery}
use cryptopulse_telegram_bot.Session.{Env, World, Try}
use cryptopulse_telegram_bot.Session.Quiet.{
  IsQuiet, IsQuietChange, Quiet-same, Quiet-unseen, Quiet-trans, IsQuiet-bind, IsQuiet-exec,
  IsQuiet-rows, IsQuiet-observed, IsQuiet-if,
}
use cryptopulse_telegram_bot.Handlers.Replies.{send_safe_message, add_callback}
use cryptopulse_telegram_bot.Handlers.Quiet.{
  send_safe_message-Quiet, edit_safe_message-Quiet, add_callback-Quiet, on_error-Quiet,
  get_lang_with_db-Quiet, is_subscribed_with_db-Quiet,
}
use cryptopulse_telegram_bot.Handlers.Quiet.Alerts.{
  handle_price_alert_command-Quiet, handle_price_alert_callback-Quiet,
}
use cryptopulse_telegram_bot.Handlers.Updates.{
  count, nil_chat, set_language_to, interval_answered, interval_failed, set_interval_to,
  refresh_prices, other_callback, process_callback, unsubscribe, start_command, subscribe_command,
  unsubscribe_command, interval_command, price_command, run_command, process_command, callback_of,
  message_of, process_telegram_update_with_db,
}

module _ (env : Env) where
  then_also-Quiet :
      (f g : World → World)
      → IsQuietChange env f
      → IsQuietChange env g
      → IsQuietChange env (λ w. g (f w))
  then_also-Quiet f g qf qg w = Quiet-trans env (qf w) (qg (f w))

  pub IsQuietChange-choice :
      (b : Bool) (f g : World → World)
      → IsQuietChange env f
      → IsQuietChange env g
      → IsQuietChange env (λ w. (if b then f else g) w)
  IsQuietChange-choice true f g qf qg = qf
  IsQuietChange-choice false f g qf qg = qg

module _ (env : Env) (app : App) (chat : ℤ) where
  -- A counter, a callback answer and a reply
  send_safe_message-add_callback-Quiet :
      (operation status : String) (id answer text : Bytes) (markup : Option Keyboard)
      → IsQuietChange env (λ w.
        send_safe_message app chat text markup (add_callback id answer (count operation status w)))
  send_safe_message-add_callback-Quiet operation status id answer text markup =
      then_also-Quiet env _ _
        (then_also-Quiet env _ _ (λ w. Quiet-unseen env (Quiet-same env w))
          (add_callback-Quiet env id answer))
        (send_safe_message-Quiet env app chat text markup)

  set_language_to-Quiet :
      (callback_id new_lang : Bytes)
      → IsQuiet env (set_language_to env app chat callback_id new_lang)
  unfolding set_language_to
  set_language_to-Quiet callback_id new_lang =
      IsQuiet-if env (not (is_language new_lang)) _ _ (add_callback-Quiet env callback_id _) (
        IsQuiet-bind env _ _
          (on_error-Quiet env _ _
            (then_also-Quiet env _ _ (add_callback-Quiet env callback_id _)
              (send_safe_message-Quiet env app chat _ _))
            (IsQuiet-observed env _ _ (IsQuiet-exec env _)))
          (λ done. send_safe_message-add_callback-Quiet _ _ callback_id _ _ _))

  interval_answered-Quiet :
      (callback_id : Bytes) (lang : String) (minutes affected : ℕ)
      → IsQuietChange env (interval_answered env app chat callback_id lang minutes affected)
  unfolding interval_answered
  interval_answered-Quiet callback_id lang minutes affected =
      IsQuietChange-choice env (affected == 0) _ _
        (send_safe_message-add_callback-Quiet _ _ callback_id _ _ _)
        (send_safe_message-add_callback-Quiet _ _ callback_id _ _ _)

  interval_failed-Quiet :
      (callback_id : Bytes) (lang : String)
      → IsQuietChange env (interval_failed env app chat callback_id lang)
  unfolding interval_failed
  interval_failed-Quiet callback_id lang =
      then_also-Quiet env _ _ (add_callback-Quiet env callback_id _)
        (send_safe_message-Quiet env app chat _ _)

  set_interval_to-Quiet :
      (callback_id : Bytes) (lang : String) (minutes : Option ℕ)
      → IsQuiet env (set_interval_to env app chat callback_id lang minutes)
  unfolding set_interval_to
  set_interval_to-Quiet callback_id lang none = add_callback-Quiet env callback_id _
  set_interval_to-Quiet callback_id lang (some minutes) =
      IsQuiet-bind env _ _
        (on_error-Quiet env _ _ (interval_failed-Quiet callback_id lang)
          (IsQuiet-observed env _ _ (IsQuiet-exec env _)))
        (λ affected.
          IsQuiet-bind env _ _
            (on_error-Quiet env _ _ (interval_failed-Quiet callback_id lang)
              (IsQuiet-observed env _ _ (IsQuiet-rows env affected)))
            (interval_answered-Quiet callback_id lang minutes))

  refresh_prices-Quiet :
      (callback_id : Bytes) (lang : String) (message_id : ℕ)
      → IsQuietChange env (refresh_prices env app chat callback_id lang message_id)
  unfolding refresh_prices
  refresh_prices-Quiet callback_id lang message_id =
      then_also-Quiet env _ _ (λ w. edit_safe_message-Quiet env app chat message_id _ _ w)
        (add_callback-Quiet env callback_id _)

  other_callback-Quiet :
      (update_id : ℕ) (callback_id payload : Bytes) (message_id : ℕ) (lang : String)
      → IsQuiet env (other_callback env app chat update_id callback_id payload message_id lang)
  unfolding other_callback
  other_callback-Quiet update_id callback_id payload message_id lang =
      IsQuiet-if env (has_prefix payload (bytes "alerts_")) _ _
        (handle_price_alert_callback-Quiet env app chat lang update_id callback_id payload)
        (IsQuiet-if env (has_prefix payload (bytes "int_")) _ _
          (set_interval_to-Quiet callback_id lang _)
          (IsQuiet-if env (bytes_eq payload (bytes "refresh_price")) _ _
            (refresh_prices-Quiet callback_id lang message_id) (Quiet-same env)))

  process_callback-Quiet :
      (update_id : ℕ) (callback_id payload : Bytes) (message_id : ℕ)
      → IsQuiet env (process_callback env app chat update_id callback_id payload message_id)
  unfolding process_callback
  process_callback-Quiet update_id callback_id payload message_id =
      IsQuiet-if env (has_prefix payload (bytes "setlang_")) _ _
        (set_language_to-Quiet callback_id _)
        (IsQuiet-bind env _ _ (get_lang_with_db-Quiet env chat)
          (other_callback-Quiet update_id callback_id payload message_id))

  start_command-Quiet : (lang : String) → IsQuietChange env (start_command env app chat lang)
  unfolding start_command
  start_command-Quiet lang = then_also-Quiet env _ _ (send_safe_message-Quiet env app chat _ _) (
      IsQuietChange-choice env app.price_alerts_enabled _ _
        (send_safe_message-Quiet env app chat _ _) (Quiet-same env))

  subscribe_command-Quiet : (lang : String) → IsQuiet env (subscribe_command env app chat lang)
  unfolding subscribe_command
  subscribe_command-Quiet lang =
      IsQuiet-bind env _ _
        (on_error-Quiet env _ _ (send_safe_message-Quiet env app chat _ _)
          (IsQuiet-observed env _ _ (IsQuiet-exec env _)))
        (λ done.
          then_also-Quiet env _ _ (λ w. Quiet-unseen env (Quiet-same env w))
            (send_safe_message-Quiet env app chat _ _))

  unsubscribe_command-Quiet : (lang : String) → IsQuiet env (unsubscribe_command env app chat lang)
  unfolding unsubscribe_command unsubscribe
  unsubscribe_command-Quiet lang =
      IsQuiet-bind env _ _
        (on_error-Quiet env _ _ (send_safe_message-Quiet env app chat _ _) (
          IsQuiet-observed env _ _
            (IsQuiet-bind env _ _ (IsQuiet-exec env _) (λ done. IsQuiet-exec env _))))
        (λ done.
          then_also-Quiet env _ _
            (then_also-Quiet env _ _ (λ w. Quiet-unseen env (Quiet-same env w))
              (send_safe_message-Quiet env app chat _ _))
            (IsQuietChange-choice env app.price_alerts_enabled _ _
              (send_safe_message-Quiet env app chat _ _) (Quiet-same env)))

  interval_command-Quiet : (lang : String) → IsQuiet env (interval_command env app chat lang)
  unfolding interval_command
  interval_command-Quiet lang =
      IsQuiet-bind env _ _
        (on_error-Quiet env _ _ (send_safe_message-Quiet env app chat _ _)
          (is_subscribed_with_db-Quiet env chat))
        (λ b.
          IsQuietChange-choice env b _ _ (send_safe_message-Quiet env app chat _ _)
            (send_safe_message-Quiet env app chat _ _))

  price_command-Quiet : (lang : String) → IsQuietChange env (price_command env app chat lang)
  unfolding price_command
  price_command-Quiet lang w = send_safe_message-Quiet env app chat _ _ w

  run_command-Quiet :
      (update_id : ℕ) (cmd : Bytes) (arguments : List Bytes) (lang : String)
      → IsQuiet env (run_command env app chat update_id cmd arguments lang)
  unfolding run_command
  run_command-Quiet update_id cmd arguments lang =
      IsQuiet-if env (bytes_eq cmd (bytes "alerts") || bytes_eq cmd (bytes "allerts")) _ _
        (handle_price_alert_command-Quiet env app chat lang update_id arguments)
        (IsQuiet-if env (bytes_eq cmd (bytes "start")) _ _ (start_command-Quiet lang) (
          IsQuiet-if env (bytes_eq cmd (bytes "language")) _ _
            (send_safe_message-Quiet env app chat _ _)
            (IsQuiet-if env (bytes_eq cmd (bytes "subscribe")) _ _ (subscribe_command-Quiet lang) (
              IsQuiet-if env (bytes_eq cmd (bytes "unsubscribe")) _ _
                (unsubscribe_command-Quiet lang)
                (IsQuiet-if env (bytes_eq cmd (bytes "interval")) _ _ (interval_command-Quiet lang)
                  (IsQuiet-if env (bytes_eq cmd (bytes "price")) _ _ (price_command-Quiet lang)
                    (Quiet-same env)))))))

  process_command-Quiet :
      (update_id : ℕ) (m : Message) → IsQuiet env (process_command env app chat update_id m)
  unfolding process_command
  process_command-Quiet update_id m =
      IsQuiet-bind env _ _ (get_lang_with_db-Quiet env chat) (run_command-Quiet update_id _ _)

module _ (env : Env) (app : App) where
  nil_chat-Quiet : IsQuiet env nil_chat
  unfolding nil_chat
  nil_chat-Quiet = Quiet-same env

  IsQuiet-option :
      {A : Type 0} (o : Option A) (m : Try (Unit {0})) (k : A → Try (Unit {0}))
      → IsQuiet env m
      → ((a : A) → IsQuiet env (k a))
      → IsQuiet env (λ w. (elim o as (λ x. Try (Unit {0})) [ none ↦ m | some a ↦ k a ]) w)
  IsQuiet-option none m k qm qk = qm
  IsQuiet-option (some a) m k qm qk = qk a

  callback_of-Quiet :
      (update_id : ℕ) (q : CallbackQuery) (m : Option Message)
      → IsQuiet env (callback_of env app update_id q m)
  unfolding callback_of
  callback_of-Quiet update_id q none = Quiet-same env
  callback_of-Quiet update_id q (some m) =
      IsQuiet-option m.chat _ _ nil_chat-Quiet
        (λ chat. process_callback-Quiet env app chat update_id q.id q.payload m.message_id)

  message_of-Quiet :
      (update_id : ℕ) (m : Option Message) → IsQuiet env (message_of env app update_id m)
  unfolding message_of
  message_of-Quiet update_id none = Quiet-same env
  message_of-Quiet update_id (some m) =
      IsQuiet-option m.chat _ _ nil_chat-Quiet
        (λ chat. process_command-Quiet env app chat update_id m)

  pub process_telegram_update_with_db-Quiet :
      (u : Update) → IsQuiet env (process_telegram_update_with_db env app u)
  unfolding process_telegram_update_with_db
  process_telegram_update_with_db-Quiet u =
      IsQuiet-option u.callback_query _ _ (message_of-Quiet u.update_id u.message)
        (λ q. callback_of-Quiet u.update_id q q.message)
