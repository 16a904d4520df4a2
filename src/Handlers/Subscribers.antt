-- ===== src/Handlers/Subscribers.antt =====
-- The SQL of the handlers on the tables of subscribers and of notification jobs.
use cryptopulse_telegram_bot.Prelude.{
  ℕ, ◌-◌, ◌*◌, Bool, true, false, not, ◌&&◌, Option, none, some, List, [], ◌∷◌, ◌++◌, String, ℤ,
  eqb_ℤ, any, if◌then◌else◌,
}
use cryptopulse_telegram_bot.Bytes.{bytes}
use cryptopulse_telegram_bot.Workers.{minute}
use cryptopulse_telegram_bot.Schema.{SubscriberRow, NotificationRow, Db, is_open, is_price_alert}
use cryptopulse_telegram_bot.Table.{update, affected, find}
use cryptopulse_telegram_bot.Notification.Jobs.{canceled_row}

abbrev pub of_chat : ℤ → SubscriberRow → Bool
of_chat chat s = eqb_ℤ s.chat_id chat

abbrev new_subscriber : ℤ → String → Bool → ℕ → SubscriberRow
new_subscriber chat language subscribed now = record {
  chat_id = chat;
  interval_minutes = 60;
  last_sent = now - 2 * minute;
  language_code = language;
  is_subscribed = subscribed;
  cron_claimed_until = none;
  delivery_suspended_until = none;
}

-- INSERT … ON CONFLICT (chat_id) DO UPDATE
abbrev upsert_subscriber :
    SubscriberRow → (SubscriberRow → SubscriberRow) → List SubscriberRow → List SubscriberRow
upsert_subscriber row change rows =
    if any (of_chat row.chat_id) rows
    then update (of_chat row.chat_id) change rows
    else rows ++ row ∷ []

unfoldable pub set_language : ℤ → String → ℕ → Db → Unit {0} × Db
set_language chat language now db = (
  tt,
  record db {
    subscribers =
        upsert_subscriber (new_subscriber chat language false now)
          (λ s. record s { language_code = language }) db.subscribers;
  },
)

-- The columns that COALESCE keeps are never NULL.
unfoldable pub subscribe : ℤ → String → ℕ → Db → Unit {0} × Db
subscribe chat language now db = (
  tt,
  record db {
    subscribers =
        upsert_subscriber (new_subscriber chat language true now)
          (λ s. record s {
            language_code = language;
            is_subscribed = true;
            delivery_suspended_until = none;
          })
          db.subscribers;
  },
)

abbrev is_subscriber : ℤ → SubscriberRow → Bool
is_subscriber chat s = of_chat chat s && s.is_subscribed

unfoldable pub update_interval : ℤ → ℕ → ℕ → Db → ℕ × Db
update_interval chat minutes now db = (
  affected (is_subscriber chat) db.subscribers,
  record db {
    subscribers =
        update (is_subscriber chat) (λ s. record s { interval_minutes = minutes; last_sent = now })
          db.subscribers;
  },
)

unfoldable pub end_subscription : ℤ → ℕ → Db → Unit {0} × Db
end_subscription chat now db = (
  tt,
  record db {
    subscribers =
        update (of_chat chat)
          (λ s. record s {
            is_subscribed = false;
            cron_claimed_until = none;
            delivery_suspended_until = none;
          })
          db.subscribers;
  },
)

abbrev pub is_open_scheduled : ℤ → NotificationRow → Bool
is_open_scheduled chat row =
    eqb_ℤ row.chat_id chat && not (is_price_alert row.kind) && is_open row.status

unfoldable pub cancel_scheduled : ℤ → ℕ → Db → Unit {0} × Db
cancel_scheduled chat now db = (
  tt,
  record db {
    notification_jobs =
        update (is_open_scheduled chat) (canceled_row (bytes "subscription canceled") now)
          db.notification_jobs;
  },
)

abbrev language_column : Option SubscriberRow → Option String
language_column none = none
language_column (some s) = some s.language_code

unfoldable pub stored_language : ℤ → ℕ → Db → Option String
stored_language chat now db = language_column (find (of_chat chat) db.subscribers)

unfoldable pub stored_subscriber : ℤ → ℕ → Db → Option SubscriberRow
stored_subscriber chat now db = find (of_chat chat) db.subscribers
