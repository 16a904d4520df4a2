-- ===== src/Examples/Processing.antt =====
-- The processing of updates at concrete inputs.
use cryptopulse_telegram_bot.Prelude.{none, some, [], ◌∷◌, pos, ◌≡◌, refl, arith}
use cryptopulse_telegram_bot.Bytes.{bytes}
use cryptopulse_telegram_bot.Schema.{Db, UpdateStatus}
use cryptopulse_telegram_bot.Update.{Update}
use cryptopulse_telegram_bot.Inbox.Jobs.{TelegramUpdateJob, new_row}
use cryptopulse_telegram_bot.Inbox.Process.{process_locked}
use cryptopulse_telegram_bot.Inbox.Atomicity.{JobOutcome, process_locked-JobOutcome}
use cryptopulse_telegram_bot.Handlers.Texts.{sprintf}
use cryptopulse_telegram_bot.Handlers.Alerts.{button_pressed, cancel_button, cancel_button_pressed}
use cryptopulse_telegram_bot.Handlers.Buttons.{button_pressed-cancel_button}
use cryptopulse_telegram_bot.Examples.{noon, quiet_env, small_db, world_of, app}

abbrev subscribe_update : Update
subscribe_update = record {
  update_id = 42;
  message =
      some (record {
        chat = some (pos 5);
        message_id = 3;
        command = bytes "subscribe";
        arguments = [];
      });
  callback_query = none;
  edited_message = none;
  channel_post = none;
  edited_channel_post = none;
}

abbrev claimed_job : TelegramUpdateJob
claimed_job = record {
  update_id = 42;
  stream_epoch = 0;
  chat_id = pos 5;
  payload = bytes "{}";
  attempts = 1;
}

abbrev claimed_db : Db
claimed_db = record small_db {
  telegram_updates =
      record (new_row 42 (pos 5) 5 0 (bytes "{}") noon) {
        status = UpdateStatus.processing;
        attempts = 1;
        claimed_until = some noon;
      }
      ∷ [];
}

processing_example :
    JobOutcome quiet_env app claimed_job subscribe_update
      (world_of claimed_db)
      (process_locked quiet_env app claimed_job subscribe_update (world_of claimed_db)).1
processing_example =
    process_locked-JobOutcome quiet_env app claimed_job subscribe_update (world_of claimed_db)

test_sprintf :
    sprintf (bytes "every %d %s, 100%%") (bytes "5" ∷ bytes "min" ∷ []) ≡ bytes "every 5 min, 100%"
unfolding sprintf
test_sprintf = refl

button_example :
    button_pressed app quiet_env 43 (pos 5) "en" (cancel_button app "en" 7).1 (world_of small_db)
    ≡ cancel_button_pressed app quiet_env (pos 5) "en" (some 7) (world_of small_db)
button_example =
    button_pressed-cancel_button quiet_env app 43 (pos 5) "en" 7 (world_of small_db) (omega arith)
      (omega arith)
