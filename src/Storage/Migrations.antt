-- ===== src/Storage/Migrations.antt =====
-- ApplyMigrations of internal/storage/migrations.go. Goose is an argument: whether its provider can be
-- made, and what applying the migrations makes of the database.
use cryptopulse_telegram_bot.Prelude.{Option, none, some, [], ◌∷◌, ℕ, ℤ, pos}
use cryptopulse_telegram_bot.Bytes.{bytes}
use cryptopulse_telegram_bot.GoError.{Error, wrapped}
use cryptopulse_telegram_bot.Session.{Result, ok, err}
use cryptopulse_telegram_bot.Storage.Lock.{
  RawAnswer, Unlock, Release, discard_connection, discarded, release_advisory_lock,
}

abbrev pub migration_advisory_lock_key : ℤ
migration_advisory_lock_key = pos 0x43727970746f

-- What the calls around goose come to.
pub record Attempt : Type 0 where
  pub connection : Option Error
  pub lock : Option Error
  pub provider : Option Error
  pub raw : RawAnswer
  pub unlock : Unlock
  pub close : Option Error

-- The result, the database, whether goose was asked to apply, and the release of the lock's connection.
pub record Migrated (D : Type 0) : Type 0 where
  pub result : Result ℕ
  pub database : D
  pub released : Option Release

module _ {D : Type 0} (up : D → Result ℕ × D) where
  abbrev pub applied : D → Result ℕ × D → Result ℕ × D
  applied d (ok count, d') = (ok count, d')
  applied d (err e, d') = (err (wrapped (bytes "apply database migrations") e), d')

  abbrev pub with_provider : Option Error → D → Result ℕ × D
  with_provider (some e) d = (err (wrapped (bytes "initialize migration provider") e), d)
  with_provider none d = applied d (up d)

  -- After an error of its statement the session may have the lock.
  abbrev pub with_lock : Attempt → Option Error → D → Migrated D
  with_lock a (some e) d = record {
    result = err (wrapped (bytes "acquire migration advisory lock") e);
    database = d;
    released = some (discarded e (migration_advisory_lock_key ∷ []) (discard_connection a.raw));
  }
  with_lock a none d = record {
    result = (with_provider a.provider d).0;
    database = (with_provider a.provider d).1;
    released = some (
        release_advisory_lock migration_advisory_lock_key a.unlock a.raw a.close
          (migration_advisory_lock_key ∷ []));
  }

  abbrev pub with_connection : Attempt → Option Error → D → Migrated D
  with_connection a (some e) d = record {
    result = err (wrapped (bytes "open migration lock connection") e);
    database = d;
    released = none;
  }
  with_connection a none d = with_lock a a.lock d

  -- ApplyMigrations
  unfoldable pub apply_migrations : Attempt → D → Migrated D
  unfolding discard_connection
  apply_migrations a d = with_connection a a.connection d
