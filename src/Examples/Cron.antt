-- ===== src/Examples/Cron.antt =====
-- The creation of scheduled jobs at a concrete input.
use cryptopulse_telegram_bot.Prelude.{◌≡◌, refl, arith, [], pos, negsuc}
use cryptopulse_telegram_bot.Schema.{Db}
use cryptopulse_telegram_bot.Table.{order_by, insert_by}
use cryptopulse_telegram_bot.Session.{ok, exec, continue, answered, confirmed, observe_error}
use cryptopulse_telegram_bot.Alert.Rows.{add_job, fresh_id}
use cryptopulse_telegram_bot.Notification.Create.{
  claim_due, insert_job, insert_jobs, insert_and_commit, create_cron_notification_jobs,
}
use cryptopulse_telegram_bot.Notification.OneScheduled.{
  OneScheduled, OneSubscriber, create_cron_notification_jobs-OneScheduled,
}
use cryptopulse_telegram_bot.Examples.{quiet_env, small_db, world_of, app}

-- The subscriber waits for a message, and has no job.
abbrev pub due_db : Db
due_db = record small_db { notification_jobs = [] }

due_db-OneSubscriber : OneSubscriber due_db
due_db-OneSubscriber (pos n) = ground arith
due_db-OneSubscriber (negsuc n) = ground arith

due_db-OneScheduled : OneScheduled due_db
due_db-OneScheduled chat = omega arith

create_example : OneScheduled (create_cron_notification_jobs quiet_env app (world_of due_db)).1.db
create_example =
    create_cron_notification_jobs-OneScheduled quiet_env app (λ n d h. h) (λ n d h. h)
      (world_of due_db) due_db-OneScheduled due_db-OneSubscriber

test_create : (create_cron_notification_jobs quiet_env app (world_of due_db)).0 ≡ ok 1
unfolding create_cron_notification_jobs claim_due insert_job insert_jobs insert_and_commit order_by
    insert_by exec continue answered confirmed observe_error add_job fresh_id
test_create = refl
