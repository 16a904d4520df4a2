-- ===== src/Inbox/Saving.antt =====
-- How saving an update can end, whatever the environment does.
use cryptopulse_telegram_bot.Prelude.{
  ℕ, suc, ◌≡◌, refl, ◌⊎◌, inl, inr, Bool, true, false, Option, [], ◌∷◌, ◌++◌, ◌==◌, ℤ, any,
  Bool-cases,
}
use cryptopulse_telegram_bot.Bytes.{Bytes}
use cryptopulse_telegram_bot.GoError.{plain}
use cryptopulse_telegram_bot.Workers.{telegram_update_shard_count}
use cryptopulse_telegram_bot.Schema.{UpdateRow, Db}
use cryptopulse_telegram_bot.Session.{Env, World, Result, ok, err}
use cryptopulse_telegram_bot.Session.Rules.{
  answered_then, answered_continue, confirmed_continue, ok_continue,
}
use cryptopulse_telegram_bot.Inbox.Partition.{telegram_shard_index}
use cryptopulse_telegram_bot.Inbox.Jobs.{next_epoch, new_row, insert_update}
use cryptopulse_telegram_bot.Inbox.Save.{
  save_operation, chat_or_zero, advance_stream, save_telegram_update,
}

module _ (env : Env) (update_id : ℕ) (chat : Option ℤ) (payload : Bytes) (w : World) where
  -- The database as the save finds it, and the epoch that it reads there.
  abbrev pub found : Db
  found = env.others (suc w.calls) w.db

  abbrev pub epoch : ℕ
  epoch = next_epoch (env.clock (suc w.calls)) found

  abbrev pub stored_row : UpdateRow
  stored_row =
      new_row update_id (chat_or_zero chat)
        (telegram_shard_index (chat_or_zero chat) telegram_update_shard_count) epoch payload
        (env.clock w.calls)

  abbrev pub is_known : Bool
  is_known = any (λ r. r.update_id == update_id) found.telegram_updates

  -- The update is stored at the end of the inbox, and the stream has the epoch and the time of it.
  pub record IsStored (d : Db) : Type 0 where
    pub was_new : is_known ≡ false
    pub updates : d.telegram_updates ≡ found.telegram_updates ++ stored_row ∷ []
    pub stream : d.stream_epoch ≡ epoch
    pub others_kept :
        (d.notification_jobs ≡ found.notification_jobs)
        × (d.telegram_replies ≡ found.telegram_replies)
        × (d.subscribers ≡ found.subscribers)

  pub data SaveOutcome (r : Result Bool × World) : Type 0 where
    stored : r.0 ≡ ok true → IsStored r.1.db → SaveOutcome r
    known : r.0 ≡ ok false → is_known ≡ true → r.1.db ≡ found → SaveOutcome r
    broken : (m : Bytes) → r.0 ≡ err (plain m) → (r.1.db ≡ w.db) ⊎ (r.1.db ≡ found) → SaveOutcome r
    lost : (m : Bytes) → r.0 ≡ err (plain m) → IsStored r.1.db → SaveOutcome r

  -- An update is stored once. The save returns true only when the inbox had no update of that id, and
  -- then the update is there, in its chat's shard and in the epoch of the stream; it returns false
  -- only when it had, and then nothing is written; it fails without writing anything, save that the
  -- update may have been stored though the confirmation of the commit was lost.
  pub save_telegram_update-SaveOutcome :
      SaveOutcome (save_telegram_update env update_id chat payload w)
  unfolding save_telegram_update insert_update advance_stream
  save_telegram_update-SaveOutcome =
      answered_continue SaveOutcome _ _ _ _ _ (λ m. broken m refl (inl refl))
        (answered_continue SaveOutcome _ _ _ _ _ (λ m. broken m refl (inr refl))
          (answered_then SaveOutcome save_operation _ _ _ _ _ (λ m. broken m refl (inr refl))
            (answered_then SaveOutcome save_operation _ _ _ _ _ (λ m. broken m refl (inr refl))
              (elim (Bool-cases is_known) [
                | inl e ↦ rw e (
                    ok_continue SaveOutcome _ tt _ (
                      confirmed_continue SaveOutcome _ _ _ _ _ (λ m. broken m refl (inr refl))
                        (λ m. broken m refl (inr refl)) (known refl e refl)))
                | inr e ↦ rw e (
                    answered_continue SaveOutcome _ _ _ _ _ (λ m. broken m refl (inr refl))
                      (confirmed_continue SaveOutcome _ _ _ _ _ (λ m. broken m refl (inr refl))
                        (λ m. lost m refl (now_stored e)) (stored refl (now_stored e))))
              ]))))
    where
      after : Db
      after = record found {
        telegram_updates = found.telegram_updates ++ stored_row ∷ [];
        stream_epoch = epoch;
        stream_last_received_at = env.clock (suc (suc (suc (suc w.calls))));
      }

      now_stored : is_known ≡ false → IsStored after
      now_stored e = record {
        was_new = e;
        updates = refl;
        stream = refl;
        others_kept = (refl, refl, refl);
      }
