-- ===== src/Alert/Crossings.antt =====
-- capturePriceAlertCrossings, triggerPriceAlert and processPriceAlertCrossings.
use cryptopulse_telegram_bot.Prelude.{
  ℕ, zero, suc, ◌+◌, Bool, true, false, not, ◌||◌, Option, none, some, List, [], ◌∷◌, ltb, ◌==◌,
  if◌then◌else◌,
}
use cryptopulse_telegram_bot.Bytes.{Bytes, bytes}
use cryptopulse_telegram_bot.GoError.{Error, plain}
use cryptopulse_telegram_bot.Schema.{AlertRow, Db}
use cryptopulse_telegram_bot.Telegram.{alert_text}
use cryptopulse_telegram_bot.Pricing.{is_valid_market_price}
use cryptopulse_telegram_bot.App.{App}
use cryptopulse_telegram_bot.Session.{
  Env, Act, Try, ok, ◌>>=◌, ◌>>◌, return, fail, handle, begin, exec, query, autocommit, commit,
  try_lock,
}
use cryptopulse_telegram_bot.Alert.Input.{alert_symbol}
use cryptopulse_telegram_bot.Alert.Rows.{
  PriceObservation, Crossing, capture, drop_settled, next_crossings, trigger_alert, alert_job,
  add_job, delete_crossing,
}

abbrev pub is_unusable : ℕ → PriceObservation → Bool
is_unusable price o =
    not (is_valid_market_price price)
    || o.started_at == 0
    || o.stored_at == 0
    || ltb o.stored_at o.started_at

unfoldable pub capture_of :
    ((ℕ → Db → Unit {0} × Db) → Try (Unit {0}))
    → Env
    → Option Bytes
    → Bytes
    → ℕ
    → PriceObservation
    → Try (Unit {0})
capture_of run env none symbol price o w = (ok tt, w)
capture_of run env (some coin) symbol price o w =
    if is_unusable price o
    then fail (plain (bytes "cannot evaluate alerts with an invalid or stale quote")) w
    else run (capture symbol price o (env.clock w.calls)) w

-- capturePriceAlertCrossings, with the call that runs its statement: in a transaction or by itself
unfoldable pub capture_price_alert_crossings :
    ((ℕ → Db → Unit {0} × Db) → Try (Unit {0}))
    → Env
    → Bytes
    → ℕ
    → PriceObservation
    → Try (Unit {0})
capture_price_alert_crossings run env symbol price o =
    capture_of run env (alert_symbol symbol) symbol price o

unfoldable pub notify_triggered : Env → App → Crossing → Option AlertRow → Try Bool
notify_triggered env app c none = return false
notify_triggered env app c (some alert) =
    let text =
      app.triggered_text (alert_text app.alert_messages alert.language_code "triggered_message")
        alert c.price c.observed_at in
    do
      exec env (add_job (alert_job alert text c.observed_at))
      exec env (delete_crossing alert.id)
      commit env
      return true

unfoldable pub trigger_if : Env → App → Crossing → Bool → Try Bool
trigger_if env app c false = return false
trigger_if env app c true = do
  alert ← exec env (trigger_alert c.alert_id c.price c.observed_at)
  notify_triggered env app c alert

-- triggerPriceAlert: the status, the job and the crossing change in one transaction.
unfoldable pub trigger_price_alert : Env → App → Crossing → Try Bool
trigger_price_alert env app c = do begin env; locked ← try_lock env; trigger_if env app c locked

-- How many alerts were triggered, and the error that ended the work.
abbrev pub Progress : Type 0
Progress = ℕ × Option Error

abbrev pub stop : ℕ → Error → Act Progress
stop created e w = ((created, some e), w)

-- A batch of candidates: a busy chat is passed over, an error ends the work.
unfoldable pub trigger_all : Env → App → List Crossing → ℕ → (ℕ → Act Progress) → Act Progress
trigger_all env app [] created next w = next created w
trigger_all env app (c ∷ candidates) created next w =
    handle
      (λ triggered.
        trigger_all env app candidates (if triggered then created + 1 else created) next)
      (stop created) (trigger_price_alert env app c w)

abbrev pub last_id : ℕ → List Crossing → ℕ
last_id after [] = after
last_id after (c ∷ candidates) = last_id c.alert_id candidates

unfoldable pub after_batch :
    Env → App → (ℕ → ℕ → Act Progress) → ℕ → ℕ → List Crossing → Act Progress
after_batch env app next after created [] w = ((created, none), w)
after_batch env app next after created (c ∷ candidates) w =
    trigger_all env app (c ∷ candidates) created (next (last_id after (c ∷ candidates))) w

-- The loop over batches. The context gives it two seconds; `fuel` bounds the rounds in their place.
unfoldable pub process_batches : Env → App → ℕ → ℕ → ℕ → Act Progress
process_batches env app zero after created w =
    stop created (plain (bytes "context deadline exceeded")) w
process_batches env app (suc fuel) after created w =
    handle (after_batch env app (process_batches env app fuel) after created) (stop created)
      (query env (next_crossings after) w)

-- processPriceAlertCrossings
unfoldable pub process_price_alert_crossings : Env → App → ℕ → Act Progress
process_price_alert_crossings env app fuel w =
    handle (λ done. process_batches env app fuel 0 0) (stop 0) (autocommit env drop_settled w)

-- evaluatePriceAlerts
unfoldable pub evaluate_price_alerts : Env → App → ℕ → Bytes → ℕ → PriceObservation → Act Progress
evaluate_price_alerts env app fuel symbol price o w =
    if not app.price_alerts_enabled
    then ((0, none), w)
    else handle (λ done. process_price_alert_crossings env app fuel) (stop 0)
        (capture_price_alert_crossings (autocommit env) env symbol price o w)
