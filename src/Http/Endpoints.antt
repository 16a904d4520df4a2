-- ===== src/Http/Endpoints.antt =====
-- The handlers of /cron, /webhook and /ready in internal/app/http_handlers.go. Of an answer the status is
-- modelled.
use cryptopulse_telegram_bot.Prelude.{
  ℕ, Bool, true, false, ◌∷◌, String, ◌==◌, if◌then◌else◌, ℤ, pos,
}
use cryptopulse_telegram_bot.Bytes.{Bytes}
use cryptopulse_telegram_bot.App.{App}
use cryptopulse_telegram_bot.Update.{
  Update, DecodedUpdate, malformed, decoded, telegram_update_chat_id,
}
use cryptopulse_telegram_bot.Session.{
  Env, World, Act, Try, Result, ok, err, ◌>>◌, answered, handle, bump, inc, release_lock,
  cron_runs_total, cron_claimed_subscribers_total, webhook_updates_total, db_operations_total,
}
use cryptopulse_telegram_bot.Notification.Create.{create_cron_notification_jobs}
use cryptopulse_telegram_bot.Inbox.Save.{save_telegram_update}
use cryptopulse_telegram_bot.Http.{Request, Producers, is_shutting_down}

abbrev pub status_ok : ℕ
status_ok = 200

abbrev pub accepted : ℕ
accepted = 202

abbrev pub bad_request : ℕ
bad_request = 400

abbrev pub conflict : ℕ
conflict = 409

abbrev pub internal_server_error : ℕ
internal_server_error = 500

abbrev pub service_unavailable : ℕ
service_unavailable = 503

-- An answer with the outcome counted.
abbrev pub cron_answer : String → ℕ → Act ℕ
cron_answer outcome code w = (code, (inc (cron_runs_total outcome) w).1)

abbrev pub webhook_answer : String → ℕ → Act ℕ
webhook_answer outcome code w = (code, (inc (webhook_updates_total outcome) w).1)

-- workers.CronAdvisoryLockKey
abbrev pub cron_advisory_lock_key : ℤ
cron_advisory_lock_key = pos 0x63726f6e6c6f636b

module _ (env : Env) where
  -- A connection of the lock pool
  abbrev pub connect : Try (Unit {0})
  connect w = answered (env.failure w.calls) (bump w) tt (bump w)

  -- SELECT pg_try_advisory_lock(key). After an error the session may have the lock: its connection is
  -- discarded, which ends the session.
  abbrev pub try_cron_lock : Try Bool
  try_cron_lock w =
      answered (env.failure w.calls) (bump w) (env.lock_free w.calls) (record (bump w) {
        held = if env.lock_free w.calls then cron_advisory_lock_key ∷ w.held else w.held;
      })

  -- acquireCronAdvisoryLock
  unfoldable pub acquire_cron_advisory_lock : Try Bool
  acquire_cron_advisory_lock = do connect; try_cron_lock

  unfoldable pub cron_created : ℕ → Act ℕ
  cron_created created w =
      if created == 0
      then cron_answer "no_jobs" status_ok w
      else cron_answer "accepted" accepted (inc (cron_claimed_subscribers_total created) w).1

  -- handleCron, while it has the lock
  unfoldable pub create_locked : App → Act ℕ
  create_locked app w =
      handle cron_created (λ e. cron_answer "create_jobs_error" internal_server_error)
        (create_cron_notification_jobs env app w)

  -- The deferred release
  abbrev pub released : ℕ × World → ℕ × World
  released (code, w) = (code, (release_lock env w).1)

  unfoldable pub cron_acquired : App → Bool → Act ℕ
  cron_acquired app false w = cron_answer "conflict" conflict w
  cron_acquired app true w = released (create_locked app w)

  -- handleCron
  unfoldable pub handle_cron : App → Act ℕ
  handle_cron app w =
      handle (cron_acquired app) (λ e. cron_answer "lock_error" internal_server_error)
        (acquire_cron_advisory_lock w)

  abbrev pub update_saved : Bool → Act ℕ
  update_saved inserted = webhook_answer (if inserted then "accepted" else "duplicate") status_ok

  unfoldable pub save_update : Bytes → Update → Act ℕ
  save_update payload u w =
      handle update_saved (λ e. webhook_answer "persist_error" internal_server_error)
        (save_telegram_update env u.update_id (telegram_update_chat_id u) payload w)

  unfoldable pub save_decoded : Bytes → DecodedUpdate → Act ℕ
  save_decoded payload (malformed m) = webhook_answer "bad_request" bad_request
  save_decoded payload (decoded u) =
      if u.update_id == 0 then webhook_answer "bad_request" bad_request else save_update payload u

  unfoldable pub save_body : Result Bytes → Act ℕ
  save_body (err e) w = webhook_answer "bad_request" bad_request w
  save_body (ok payload) w = save_decoded payload (env.decode_update payload) w

  -- handleWebhook
  unfoldable pub handle_webhook : Request → Act ℕ
  handle_webhook r w = save_body r.body w

  abbrev pub pinged : Producers → Act ℕ
  pinged p w =
      if p.shutting_down
      then (service_unavailable, w)
      else (status_ok, (inc (db_operations_total "readiness_ping" "success") w).1)

  -- The handler of /ready: the producers at its start, and at the end, after what other goroutines do
  -- while the database is pinged.
  unfoldable pub handle_ready : Producers → Producers → Act ℕ
  handle_ready p p' w =
      if is_shutting_down p
      then (service_unavailable, w)
      else handle (λ done. pinged p')
          (λ e v. (service_unavailable, (inc (db_operations_total "readiness_ping" "error") v).1))
          (connect w)
