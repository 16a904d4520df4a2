-- ===== src/Examples/Inbox.antt =====
-- The inbox and the order of mutations at concrete inputs.
use cryptopulse_telegram_bot.Prelude.{
  ◌<◌, ◌%◌, ◌≡◌, refl, ◌↔◌, none, some, [], ◌∷◌, arith, pos, negsuc, Elem,
}
use cryptopulse_telegram_bot.Bytes.{Bytes, bytes}
use cryptopulse_telegram_bot.Schema.{interval, VersionRow, language}
use cryptopulse_telegram_bot.Inbox.Partition.{
  telegram_shard_index, telegram_worker_shard_ids, telegram_worker_shard_ids_iff,
}
use cryptopulse_telegram_bot.Inbox.Save.{save_telegram_update}
use cryptopulse_telegram_bot.Inbox.Saving.{SaveOutcome, save_telegram_update-SaveOutcome}
use cryptopulse_telegram_bot.Inbox.Claim.{claim_in_shards}
use cryptopulse_telegram_bot.Inbox.Claiming.{ClaimOutcome, claim_in_shards-ClaimOutcome}
use cryptopulse_telegram_bot.Inbox.Jobs.{new_row}
use cryptopulse_telegram_bot.Mutation.{telegram_mutation_setting, setting_of_callback, upsert}
use cryptopulse_telegram_bot.Update.{Update}
use cryptopulse_telegram_bot.Strconv.{atoi}
use cryptopulse_telegram_bot.Mutation.Convergence.{upsert_commutes}
use cryptopulse_telegram_bot.Schema.{Db}
use cryptopulse_telegram_bot.Examples.{noon, quiet_env, small_db, world_of}

shard_of_a_group : telegram_shard_index (negsuc 4) 64 ≡ 59
unfolding telegram_shard_index
shard_of_a_group = refl

worker_example : Elem 9 (telegram_worker_shard_ids (pos 1) (pos 8)) ↔ ((9 < 64) × (9 % 8 ≡ 1))
worker_example = telegram_worker_shard_ids_iff 1 8 9 (omega arith)

save_example :
    SaveOutcome quiet_env 42
      (some (pos 5))
      (bytes "{}")
      (world_of small_db)
      (save_telegram_update quiet_env 42 (some (pos 5)) (bytes "{}") (world_of small_db))
save_example =
    save_telegram_update-SaveOutcome quiet_env 42 (some (pos 5)) (bytes "{}") (world_of small_db)

abbrev inbox_db : Db
inbox_db = record small_db { telegram_updates = new_row 42 (pos 5) 5 0 (bytes "{}") noon ∷ [] }

update_claim_example :
    ClaimOutcome quiet_env
      (4 ∷ 5 ∷ [])
      inbox_db
      noon
      (claim_in_shards quiet_env (4 ∷ 5 ∷ []) (world_of inbox_db))
update_claim_example = claim_in_shards-ClaimOutcome quiet_env (4 ∷ 5 ∷ []) (world_of inbox_db)

abbrev old_choice : VersionRow
old_choice = record { chat_id = pos 5; setting = language; stream_epoch = 0; update_id = 7 }

abbrev new_choice : VersionRow
new_choice = record { chat_id = pos 5; setting = language; stream_epoch = 1; update_id = 3 }

upsert_example :
    ((upsert old_choice (upsert new_choice []).1).0 ≡ 0)
    × ((upsert new_choice (upsert old_choice []).1).1
        ≡ (upsert old_choice (upsert new_choice []).1).1)
upsert_example = upsert_commutes old_choice new_choice [] (record { key = refl; before = refl })

-- A callback of chat 5.
abbrev pressed : Bytes → Update
pressed payload = record {
  update_id = 9;
  message = none;
  callback_query = some (record {
    id = bytes "cb";
    payload = payload;
    message = some (record { chat = some (pos 5); message_id = 3; command = []; arguments = [] });
  });
  edited_message = none;
  channel_post = none;
  edited_channel_post = none;
}

interval_of_a_callback : telegram_mutation_setting (pressed (bytes "int_0060")) ≡ some interval
unfolding telegram_mutation_setting setting_of_callback atoi
interval_of_a_callback = refl

interval_out_of_range : telegram_mutation_setting (pressed (bytes "int_1441")) ≡ none
unfolding telegram_mutation_setting setting_of_callback atoi
interval_out_of_range = refl
