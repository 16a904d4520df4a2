-- ===== src/Examples/Lifecycle.antt =====
-- The start and the shutdown of the program at concrete inputs.
use cryptopulse_telegram_bot.Prelude.{ℕ, ◌≡◌, refl, true, false, none, some, leb}
use cryptopulse_telegram_bot.Bytes.{bytes}
use cryptopulse_telegram_bot.GoError.{plain}
use cryptopulse_telegram_bot.Session.{Result, ok}
use cryptopulse_telegram_bot.Storage.Lock.{bad_conn, answered_with}
use cryptopulse_telegram_bot.Runtime.Starting.{Answers, closed, start_run}
use cryptopulse_telegram_bot.Runtime.Started.{StartOutcome, start_run-StartOutcome}
use cryptopulse_telegram_bot.Runtime.Stopping.{
  Runtime, started, begin_shutdown, main_step, done, main, interrupted, here, next,
}
use cryptopulse_telegram_bot.Runtime.Stopped.{Orderly, Reach-Orderly}
use cryptopulse_telegram_bot.Runtime.Returns.{Returns, Reach-Returns}
use cryptopulse_telegram_bot.Examples.Service.{environment, loaded_config, test_load}

-- A database is the number of its last migration.
abbrev up_to_twelve : ℕ → Result ℕ × ℕ
up_to_twelve version = (ok 12, 12)

-- Everything goes well but the client of Telegram.
abbrev no_bot : Answers ℕ
no_bot = record {
  is_parse_config = λ e. false;
  query_open = none;
  query_ping = none;
  attempt = record {
    connection = none;
    lock = none;
    provider = none;
    raw = bad_conn;
    unlock = answered_with;
    close = none;
  };
  exists = λ version o. leb 12 version;
  schema_query = none;
  lock_open = none;
  lock_ping = none;
  bot = some (plain (bytes "unauthorized"));
}

start_example :
    StartOutcome up_to_twelve no_bot loaded_config 3 (start_run up_to_twelve no_bot loaded_config 3)
start_example = start_run-StartOutcome up_to_twelve no_bot environment loaded_config 3 test_load

test_closed : (start_run up_to_twelve no_bot loaded_config 3).lock_pool ≡ closed
unfolding start_run
test_closed = refl

abbrev interrupted_run : Runtime
unfolding started
interrupted_run = record (started 9) { parent_done = true }

interrupted_step : main_step done interrupted_run ≡ some (begin_shutdown none interrupted_run)
unfolding main_step interrupted_run
interrupted_step = refl

shutdown_example : Orderly (begin_shutdown none interrupted_run)
unfolding started
shutdown_example = Reach-Orderly 9 (next (next here interrupted) (main done interrupted_step))

going_back_example : Returns (record (started 0) { parent_done = true })
unfolding started
going_back_example = Reach-Returns 0 (next here interrupted) refl (refl, refl)
