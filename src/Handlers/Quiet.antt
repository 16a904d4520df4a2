-- ===== src/Handlers/Quiet.antt =====
-- The handlers of alerts and the order of mutations change nothing but the view of their transaction
-- and the collector.
pub mod Alerts
pub mod Updates
use cryptopulse_telegram_bot.Prelude.{
  ℕ, Bool, true, false, not, Option, none, some, List, [], ◌∷◌, String, ℤ, leb, ◌==◌, if◌then◌else◌,
}
use cryptopulse_telegram_bot.Bytes.{Bytes}
use cryptopulse_telegram_bot.Schema.{
  AlertRow, SubscriberRow, Setting, subscription, language, interval,
}
use cryptopulse_telegram_bot.App.{App, Keyboard}
use cryptopulse_telegram_bot.Update.{PriceEntry, Update}
use cryptopulse_telegram_bot.Session.{Env, World, Result, Try, ok, err, read, exec}
use cryptopulse_telegram_bot.Session.Quiet.{
  Quiet, IsQuiet, IsQuietChange, Quiet-same, Quiet-unseen, Quiet-trans, IsQuiet-bind, IsQuiet-read,
  IsQuiet-exec, IsQuiet-rows, IsQuiet-observed, IsQuiet-if,
}
use cryptopulse_telegram_bot.Alert.Create.{
  Creation, problem, created, insert_new, create_counted, create_at, create_from,
  create_price_alert, Listed, is_stale, max_active_price_alerts, counted, list_price_alerts,
  cancel_found, cancel_price_alert,
}
use cryptopulse_telegram_bot.Mutation.{
  advance_version, unless_superseded, allow_setting, allow_telegram_mutation,
}
use cryptopulse_telegram_bot.Inbox.Jobs.{TelegramUpdateJob}
use cryptopulse_telegram_bot.Handlers.Replies.{
  tell, add, add_callback, send_safe_message, edit_safe_message, on_error, or_ukrainian,
  get_lang_with_db, checked, is_subscribed_with_db,
}
use cryptopulse_telegram_bot.Handlers.Subscribers.{stored_language}
use cryptopulse_telegram_bot.Alert.Rows.{insert_alert}
use cryptopulse_telegram_bot.Handlers.Alerts.{
  show_price_alert_menu, show_alerts, show_price_alert_list, reply_created, add_parsed,
  add_price_alert_and_reply, handle_price_alert_command, cancel_button_pressed, coin_chosen,
  percent_chosen, button_pressed, deferring, handle_price_alert_callback,
}

module _ (env : Env) where
  -- The collector
  pub send_safe_message-Quiet :
      (app : App) (chat : ℤ) (text : Bytes) (markup : Option Keyboard)
      → IsQuietChange env (send_safe_message app chat text markup)
  unfolding send_safe_message add
  send_safe_message-Quiet app chat text markup w = Quiet-unseen env (Quiet-same env w)

  pub edit_safe_message-Quiet :
      (app : App) (chat : ℤ) (id : ℕ) (text : Bytes) (markup : Option Keyboard)
      → IsQuietChange env (edit_safe_message app chat id text markup)
  unfolding edit_safe_message add
  edit_safe_message-Quiet app chat id text markup w = Quiet-unseen env (Quiet-same env w)

  pub add_callback-Quiet : (id text : Bytes) → IsQuietChange env (add_callback id text)
  unfolding add_callback
  add_callback-Quiet id text w = Quiet-unseen env (Quiet-same env w)

  pub on_error-Quiet :
      {A : Type 0} (change : World → World) (m : Try A)
      → IsQuietChange env change
      → IsQuiet env m
      → IsQuiet env (λ w. on_error change (m w))
  unfolding on_error
  on_error-Quiet {A = A} change m qc qm w = after (m w) (qm w)
    where
      after : (r : Result A × World) → Quiet env w r.1 → Quiet env w (on_error change r).1
      after (ok a, v) q = q
      after (err e, v) q = Quiet-trans env q (qc v)

  pub deferring-Quiet :
      {A : Type 0} (change : World → World) (m : Try A)
      → IsQuietChange env change
      → IsQuiet env m
      → IsQuiet env (λ w. deferring change (m w))
  unfolding deferring
  deferring-Quiet {A = A} change m qc qm w = Quiet-trans env (qm w) (qc (m w).1)

  pub get_lang_with_db-Quiet : (chat : ℤ) → IsQuiet env (get_lang_with_db env chat)
  unfolding get_lang_with_db or_ukrainian
  get_lang_with_db-Quiet chat w = found (read env (stored_language chat) w) (IsQuiet-read env _ w)
    where
      found :
          (r : Result (Option String) × World) → Quiet env w r.1 → Quiet env w (or_ukrainian r).1
      found (ok lang, v) q = q
      found (err e, v) q = q

  checked-Quiet : (s : Option SubscriberRow) → IsQuiet env (checked s)
  unfolding checked
  checked-Quiet none w = Quiet-unseen env (Quiet-same env w)
  checked-Quiet (some s) w = Quiet-unseen env (Quiet-same env w)

  pub is_subscribed_with_db-Quiet : (chat : ℤ) → IsQuiet env (is_subscribed_with_db env chat)
  unfolding is_subscribed_with_db
  is_subscribed_with_db-Quiet chat =
      IsQuiet-bind env _ _ (IsQuiet-observed env _ _ (IsQuiet-read env _)) checked-Quiet

  -- The order of mutations
  advance_version-Quiet :
      (job : TelegramUpdateJob) (setting : Setting) → IsQuiet env (advance_version env job setting)
  unfolding advance_version
  advance_version-Quiet job setting =
      IsQuiet-bind env _ _ (IsQuiet-exec env _)
        (λ affected. IsQuiet-bind env _ _ (IsQuiet-rows env affected) (λ n. Quiet-same env))

  unless_superseded-Quiet :
      (job : TelegramUpdateJob) (newer : Bool) → IsQuiet env (unless_superseded env job newer)
  unfolding unless_superseded
  unless_superseded-Quiet job true = Quiet-same env
  unless_superseded-Quiet job false = advance_version-Quiet job interval

  allow_setting-Quiet :
      (job : TelegramUpdateJob) (setting : Option Setting)
      → IsQuiet env (allow_setting env job setting)
  unfolding allow_setting
  allow_setting-Quiet job none = Quiet-same env
  allow_setting-Quiet job (some subscription) = advance_version-Quiet job subscription
  allow_setting-Quiet job (some language) = advance_version-Quiet job language
  allow_setting-Quiet job (some interval) =
      IsQuiet-bind env _ _ (IsQuiet-read env _) (unless_superseded-Quiet job)

  pub allow_telegram_mutation-Quiet :
      (job : TelegramUpdateJob) (u : Update) → IsQuiet env (allow_telegram_mutation env job u)
  unfolding allow_telegram_mutation
  allow_telegram_mutation-Quiet job u = allow_setting-Quiet job _

  -- Alerts
  insert_new-Quiet : (row : ℕ → AlertRow) → IsQuiet env (insert_new env row)
  unfolding insert_new
  insert_new-Quiet row w =
      IsQuiet-bind env (exec env (insert_alert (row (env.clock w.calls)))) _ (IsQuiet-exec env _)
        (λ id. Quiet-same env) w

  create_counted-Quiet :
      (chat : ℤ) (entry : PriceEntry) (row : ℕ → AlertRow) (c : ℕ × ℕ)
      → IsQuiet env (create_counted env chat entry row c)
  unfolding create_counted
  create_counted-Quiet chat entry row (count, now) =
      IsQuiet-if env (is_stale entry now) _ _ (Quiet-same env) (
        IsQuiet-if env (leb max_active_price_alerts count) _ _ (Quiet-same env)
          (insert_new-Quiet row))

  create_at-Quiet :
      (update_id : ℕ) (chat : ℤ) (lang : String) (symbol : Bytes) (percent : ℤ) (entry : PriceEntry)
      (target : Option ℕ)
      → IsQuiet env (create_at env update_id chat lang symbol percent entry target)
  unfolding create_at
  create_at-Quiet update_id chat lang symbol percent entry none = Quiet-same env
  create_at-Quiet update_id chat lang symbol percent entry (some target) =
      IsQuiet-bind env (counted env chat) _ (λ w. IsQuiet-read env _ w)
        (create_counted-Quiet chat entry _)

  create_from-Quiet :
      (update_id : ℕ) (chat : ℤ) (lang : String) (symbol : Bytes) (percent : ℤ)
      (e : Option PriceEntry)
      → IsQuiet env (create_from env update_id chat lang symbol percent e)
  unfolding create_from
  create_from-Quiet update_id chat lang symbol percent none = Quiet-same env
  create_from-Quiet update_id chat lang symbol percent (some entry) =
      IsQuiet-if env (entry.updated_at == 0) _ _ (Quiet-same env)
        (create_at-Quiet update_id chat lang symbol percent entry _)

  create_price_alert-Quiet :
      (update_id : ℕ) (chat : ℤ) (lang : String) (symbol : Bytes) (percent : ℤ)
      → IsQuiet env (create_price_alert env update_id chat lang symbol percent)
  unfolding create_price_alert
  create_price_alert-Quiet update_id chat lang symbol percent w =
      create_from-Quiet update_id chat lang symbol percent _ w

  cancel_found-Quiet : (id : ℕ) (chat : ℤ) (n : ℕ) → IsQuiet env (cancel_found env id chat n)
  unfolding cancel_found
  cancel_found-Quiet id chat n =
      IsQuiet-if env (n == 0) _ _ (Quiet-same env)
        (IsQuiet-bind env _ _ (IsQuiet-exec env _) (λ done. Quiet-same env))

  cancel_price_alert-Quiet : (chat : ℤ) (id : ℕ) → IsQuiet env (cancel_price_alert env chat id)
  unfolding cancel_price_alert
  cancel_price_alert-Quiet chat id =
      IsQuiet-bind env _ _ (IsQuiet-exec env _)
        (λ affected. IsQuiet-bind env _ _ (IsQuiet-rows env affected) (cancel_found-Quiet id chat))
