-- ===== src/Notification/Message.antt =====
-- What a worker of notifications may send, and when, in terms of the rows of the database.
use cryptopulse_telegram_bot.Prelude.{
  ℕ, ◌+◌, ◌*◌, ◌≤◌, ◌<◌, ◌≡◌, ◌≢◌, ◌⊎◌, refl, arith, String, true, false, ◌&&◌, ◌∷◌, ◌++◌, Option,
  none, some, ℤ, eqb_ℤ_iff, Elem, ◌==◌, is_some_eq,
}
use cryptopulse_telegram_bot.Bytes.{Bytes}
use cryptopulse_telegram_bot.Workers.{second, minute}
use cryptopulse_telegram_bot.Schema.{
  NotificationRow, SubscriberRow, AlertRow, JobStatus, AlertStatus, Db, is_price_alert, is_sending,
}
use cryptopulse_telegram_bot.Table.Laws.{find_holds, Elem-find, any_holds}
use cryptopulse_telegram_bot.Telegram.{text}
use cryptopulse_telegram_bot.App.{App}
use cryptopulse_telegram_bot.Session.{Outgoing}
use cryptopulse_telegram_bot.Pricing.{price_age}
use cryptopulse_telegram_bot.Notification.Jobs.{NotificationJob}
use cryptopulse_telegram_bot.Notification.Process.{
  subscription_of, alert_triggered, is_triggered, lease_reaches, holds_claim,
  notification_message_for_delivery, message_of,
}

-- The chat of a scheduled notification is subscribed.
pub record IsSubscribed (chat_id : ℤ) (d : Db) : Type 0 where
  pub subscriber : SubscriberRow
  pub stands : Elem subscriber d.subscribers
  pub same_chat : subscriber.chat_id ≡ chat_id
  pub subscribed : subscriber.is_subscribed ≡ true

-- The alert of a price alert's notification has been triggered, and is not canceled.
pub record IsTriggered (id : ℕ) (chat_id : ℤ) (d : Db) : Type 0 where
  pub alert : AlertRow
  pub stands : Elem alert d.price_alerts
  pub same_id : alert.id ≡ id
  pub same_chat : alert.chat_id ≡ chat_id
  pub triggered : alert.status ≡ AlertStatus.triggered

pub record IsWanted (job : NotificationJob) (d : Db) : Type 0 where
  pub scheduled : is_price_alert job.kind ≡ false → IsSubscribed job.chat_id d
  pub alert : is_price_alert job.kind ≡ true → IsTriggered job.price_alert_id job.chat_id d

-- The job's row is being sent under the job's token and attempt, with more than 15 seconds of its lease
-- left.
pub record HoldsClaim (job : NotificationJob) (now : ℕ) (d : Db) : Type 0 where
  pub row : NotificationRow
  pub stands : Elem row d.notification_jobs
  pub same_id : row.id ≡ job.id
  pub is_sent : row.status ≡ JobStatus.sending
  pub same_token : row.claim_token ≡ some job.claim_token
  pub same_attempt : row.attempts ≡ job.attempts
  pub until : ℕ
  pub lease : row.claimed_until ≡ some until
  pub time_left : now + 15 * second < until

-- A message to a chat with a text, with the warning after it if the text was scheduled more than a
-- minute before it is sent.
pub record IsMessage (app : App) (chat_id : ℤ) (lang : String) (words : Bytes)
    (scheduled_at sent_at : ℕ) (m : Outgoing) : Type 0 where
  pub to_chat : m.chat_id ≡ chat_id
  pub fresh : (scheduled_at ≡ 0) ⊎ (sent_at ≤ scheduled_at + minute) → m.text ≡ words
  pub delayed :
      scheduled_at ≢ 0
      → scheduled_at + minute < sent_at
      → m.text ≡ words ++ 10 ∷ 10 ∷ text app.messages lang "delay_warning"
  pub is_new : m.edited_message ≡ none

pub sending_status : (s : JobStatus) → is_sending s ≡ true → s ≡ JobStatus.sending
sending_status JobStatus.sending h = refl
sending_status JobStatus.pending h = absurd (ground (arith, h))
sending_status JobStatus.sent h = absurd (ground (arith, h))
sending_status JobStatus.failed h = absurd (ground (arith, h))
sending_status JobStatus.canceled h = absurd (ground (arith, h))

pub holds_claim-HoldsClaim :
    (job : NotificationJob) (now : ℕ) (d : Db) → holds_claim job now d ≡ true → HoldsClaim job now d
holds_claim-HoldsClaim job now d h =
    let (row, i, e) = any_holds _ d.notification_jobs h in
    by_lease row i row.claimed_until row.claim_token refl refl e
  where
    by_lease :
        (row : NotificationRow)
        → Elem row d.notification_jobs
        → (o t : Option ℕ) → row.claimed_until ≡ o
        → row.claim_token ≡ t
        → (row.id == job.id
            && is_sending row.status
            && is_some_eq row.claim_token job.claim_token
            && row.attempts == job.attempts
            && lease_reaches row.claimed_until (now + 15 * second))
          ≡ true
        → HoldsClaim job now d
    by_lease row i none t o k e = absurd (ground (arith, o, e))
    by_lease row i (some until) none o k e = absurd (ground (arith, k, e))
    by_lease row i (some until) (some token) o k e = record {
      row = row;
      stands = i;
      same_id = ground (arith, e);
      is_sent = sending_status row.status (ground (arith, e));
      same_token = ground (arith, e, k);
      same_attempt = ground (arith, e);
      until = until;
      lease = o;
      time_left = ground (arith, e, o);
    }

pub subscription-IsSubscribed :
    (chat_id : ℤ) (now : ℕ) (d : Db) (s : SubscriberRow)
    → subscription_of chat_id now d ≡ some s
    → s.is_subscribed ≡ true
    → IsSubscribed chat_id d
subscription-IsSubscribed chat_id now d s e h = record {
  subscriber = s;
  stands = Elem-find _ d.subscribers s e;
  same_chat = (eqb_ℤ_iff s.chat_id chat_id).0 (find_holds _ d.subscribers s e);
  subscribed = h;
}

pub alert_triggered-IsTriggered :
    (job : NotificationJob) (now : ℕ) (d : Db)
    → alert_triggered job now d ≡ true
    → IsTriggered job.price_alert_id job.chat_id d
alert_triggered-IsTriggered job now d h =
    let (a, i, e) = any_holds _ d.price_alerts h in
    record {
      alert = a;
      stands = i;
      same_id = ground (arith, e);
      same_chat = (eqb_ℤ_iff a.chat_id job.chat_id).0 (ground (arith, e));
      triggered = status a.status (ground (arith, e));
    }
  where
    status : (s : AlertStatus) → is_triggered s ≡ true → s ≡ AlertStatus.triggered
    status AlertStatus.triggered h = refl
    status AlertStatus.active h = absurd (ground (arith, h))
    status AlertStatus.canceled h = absurd (ground (arith, h))

pub message_of-IsMessage :
    (app : App) (job : NotificationJob) (sent_at : ℕ)
    → IsMessage app job.chat_id job.lang job.text job.scheduled_at sent_at
        (message_of app job sent_at)
unfolding notification_message_for_delivery price_age
message_of-IsMessage app job sent_at = record {
  to_chat = refl;
  fresh = λ h. ground (arith, h);
  delayed = λ n l. ground (arith, n, l);
  is_new = refl;
}
