-- ===== src/Examples/Web.antt =====
-- The HTTP server at concrete inputs: a bucket is the number of its tokens, which nobody refills.
use cryptopulse_telegram_bot.Prelude.{
  ℕ, ◌+◌, ◌*◌, ◌-◌, ◌<◌, ◌≡◌, ◌≢◌, ◌⊎◌, refl, arith, Bool, none, some, [], ◌∷◌, true, false, All,
  ltb,
}
use cryptopulse_telegram_bot.Bytes.{bytes, bytes_eq}
use cryptopulse_telegram_bot.Bytes.Equality.{get, put}
use cryptopulse_telegram_bot.Update.{Update, decoded, telegram_update_chat_id}
use cryptopulse_telegram_bot.Session.{Env, ok, handle, answered, confirmed, continue, observe_error}
use cryptopulse_telegram_bot.Inbox.Save.{save_telegram_update, advance_stream}
use cryptopulse_telegram_bot.Inbox.Jobs.{insert_update}
use cryptopulse_telegram_bot.Inbox.Partition.{telegram_shard_index}
use cryptopulse_telegram_bot.HttpServer.{
  ClientRateLimitEntry, ClientRateLimiter, allow_client, allow_from, bucket_of, cleaned,
  method_only, rate_limited,
}
use cryptopulse_telegram_bot.HttpServer.Address.{client_key}
use cryptopulse_telegram_bot.HttpServer.Budget.{serve, get-serve, IsRecent, allow_client-IsRecent}
use cryptopulse_telegram_bot.Http.{
  Request, Producers, safe_secret_compare, webhook_auth_middleware, enter, leave,
}
use cryptopulse_telegram_bot.Http.Endpoints.{
  status_ok, accepted, handle_cron, handle_webhook, save_body, save_decoded, save_update,
}
use cryptopulse_telegram_bot.Http.Routes.{Service, webhook_route, route, producer_middleware}
use cryptopulse_telegram_bot.Http.Acknowledged.{IsAcknowledged, webhook_route-IsAcknowledged}
use cryptopulse_telegram_bot.Http.Draining.{Untouched, route-Drained}
use cryptopulse_telegram_bot.Http.Exclusive.{CronOutcome, handle_cron-CronOutcome}
use cryptopulse_telegram_bot.Examples.{noon, quiet_env, small_db, world_of, app}
use cryptopulse_telegram_bot.Examples.Cron.{due_db}
use cryptopulse_telegram_bot.Examples.Service.{loaded_config}

abbrev new_tokens : ℕ → ℕ → ℕ
new_tokens rate burst = burst

abbrev take_token : ℕ → ℕ → Bool × ℕ
take_token now n = (ltb 0 n, n - 1)

abbrev seen_at_noon : ClientRateLimitEntry ℕ
seen_at_noon = record { limiter = 7; last_seen = noon }

abbrev one_client : ClientRateLimiter ℕ
one_client = record {
  limit = 0;
  burst = 3;
  ttl = 600;
  last_cleanup = noon;
  clients = (bytes "10.0.0.1", seen_at_noon) ∷ [];
}

known_client : get (bytes "10.0.0.1") one_client.clients ≡ some seen_at_noon
unfolding get
known_client = refl

budget_example :
    get
      (bytes "10.0.0.1")
      (serve new_tokens take_token one_client
        ((bytes "10.0.0.2", noon + 5) ∷ (bytes "", noon + 599) ∷ [])).clients
    ≡ some seen_at_noon
budget_example =
    get-serve new_tokens take_token (bytes "10.0.0.1") seen_at_noon
      ((bytes "10.0.0.2", noon + 5) ∷ (bytes "", noon + 599) ∷ []) one_client
      ((refl, omega arith), ((refl, omega arith), tt)) (omega arith) known_client

one_client-IsRecent : IsRecent new_tokens take_token one_client
one_client-IsRecent = record {
  positive = omega arith;
  bounded = omega arith;
  recent = (omega arith, tt);
}

recent_example :
    IsRecent new_tokens take_token
      (allow_client new_tokens take_token one_client (bytes "10.0.0.2") (noon + 900)).1
    × All
        (λ c. noon + 900 < c.1.last_seen + 2 * 600)
        (allow_client new_tokens take_token one_client (bytes "10.0.0.2") (noon + 900)).1.clients
recent_example =
    allow_client-IsRecent new_tokens take_token one_client (bytes "10.0.0.2") (noon + 900)
      one_client-IsRecent (omega arith)

-- Every payload is an update that says nothing.
abbrev silent_update : Update
silent_update = record {
  update_id = 9;
  message = none;
  callback_query = none;
  edited_message = none;
  channel_post = none;
  edited_channel_post = none;
}

abbrev decoding_env : Env
decoding_env = record quiet_env { decode_update = λ payload. decoded silent_update }

abbrev webhook_request : Request
webhook_request = record {
  method = bytes "POST";
  path = bytes "/webhook";
  remote_addr = bytes "10.0.0.1:5000";
  authorization = bytes "";
  telegram_secret_token = bytes "WEBHOOK_SECRET_TOKEN";
  body = ok (bytes "{}");
}

abbrev serving : Service ℕ
serving = record {
  world = world_of small_db;
  producers = record { shutting_down = false; active = 0 };
  cron_limiter = 5;
  webhook_limiter = one_client;
}

abbrev steady : Producers → Producers
steady p = p

test_webhook :
    (webhook_route new_tokens take_token
      (λ n. noon)
      steady
      decoding_env
      app
      loaded_config
      webhook_request
      serving).0
    ≡ status_ok
unfolding webhook_route method_only webhook_auth_middleware rate_limited safe_secret_compare
    allow_client allow_from bucket_of cleaned client_key get put producer_middleware enter leave
    handle_webhook save_body save_decoded save_update telegram_update_chat_id save_telegram_update
    advance_stream insert_update telegram_shard_index handle answered confirmed continue
    observe_error
test_webhook = refl

stored_update_example :
    (safe_secret_compare webhook_request.telegram_secret_token loaded_config.webhook_secret ≡ true)
    × IsAcknowledged decoding_env webhook_request
        (webhook_route new_tokens take_token
          (λ n. noon)
          steady
          decoding_env
          app
          loaded_config
          webhook_request
          serving).1.world.db
stored_update_example =
    webhook_route-IsAcknowledged new_tokens take_token (λ n. noon) steady decoding_env app
      loaded_config webhook_request serving test_webhook

abbrev draining : Service ℕ
draining = record serving { producers = record { shutting_down = true; active = 1 } }

drained_example :
    Untouched new_tokens take_token
      (λ n. noon)
      steady
      decoding_env
      app
      loaded_config
      webhook_request
      draining
      (route new_tokens take_token
        (λ n. noon)
        steady
        decoding_env
        app
        loaded_config
        webhook_request
        draining)
    × ((route new_tokens take_token
          (λ n. noon)
          steady
          decoding_env
          app
          loaded_config
          webhook_request
          draining).0
        ≢ accepted)
    × ((route new_tokens take_token
            (λ n. noon)
            steady
            decoding_env
            app
            loaded_config
            webhook_request
            draining).0
          ≡ status_ok
        → (bytes_eq webhook_request.path (bytes "/live") ≡ true)
          ⊎ (bytes_eq webhook_request.path (bytes "/metrics") ≡ true))
drained_example =
    route-Drained new_tokens take_token (λ n. noon) steady decoding_env app loaded_config
      webhook_request draining refl refl

cron_example :
    CronOutcome quiet_env app (world_of due_db) (handle_cron quiet_env app (world_of due_db))
cron_example = handle_cron-CronOutcome quiet_env app (world_of due_db)
