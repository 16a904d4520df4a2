-- ===== src/Storage/Lock.antt =====
-- internal/storage/advisory_lock.go: what becomes of a connection that holds an advisory lock.
use cryptopulse_telegram_bot.Prelude.{
  Bool, Option, none, some, List, [], ◌∷◌, ℤ, eqb_ℤ, any, if◌then◌else◌,
}
use cryptopulse_telegram_bot.Bytes.{bytes}
use cryptopulse_telegram_bot.GoError.{Error, plain, joined}

-- Where the connection is afterwards: in the pool again, closed with its session, or still checked out.
pub data Fate : Type 0 where
  pooled closed checked_out : Fate

-- What conn.Raw returns: driver.ErrBadConn, with which database/sql closes the connection,
-- sql.ErrConnDone, or another error.
pub data RawAnswer : Type 0 where
  bad_conn conn_done : RawAnswer
  other_error : Error → RawAnswer

-- DiscardConnection of a connection that is not nil
unfoldable pub discard_connection : RawAnswer → Option Error × Fate
discard_connection bad_conn = (none, closed)
discard_connection conn_done = (none, closed)
discard_connection (other_error e) = (some e, checked_out)

-- What becomes of SELECT pg_advisory_unlock(key): it is not run, it is run and answered, or it is run
-- and its answer is lost.
pub data Unlock : Type 0 where
  not_run : Error → Unlock
  answered_with : Unlock
  answer_lost : Error → Unlock

-- A lock of a session is held as often as it was taken.
abbrev pub unlocked : ℤ → List ℤ → List ℤ
unlocked key [] = []
unlocked key (k ∷ locks) = if eqb_ℤ k key then locks else k ∷ unlocked key locks

abbrev pub holds : ℤ → List ℤ → Bool
holds key locks = any (λ k. eqb_ℤ k key) locks

-- The error that is returned, where the connection is, and the locks of its session.
pub record Release : Type 0 where
  pub failure : Option Error
  pub fate : Fate
  pub locks : List ℤ

abbrev pub join_error : Error → Option Error → Error
join_error e none = e
join_error e (some d) = joined e d

-- A session that is closed has no locks.
abbrev pub locks_of : Fate → List ℤ → List ℤ
locks_of pooled locks = locks
locks_of closed locks = []
locks_of checked_out locks = locks

abbrev pub discarded : Error → List ℤ → Option Error × Fate → Release
discarded e locks (d, fate) = record {
  failure = some (join_error e d);
  fate = fate;
  locks = locks_of fate locks;
}

abbrev pub not_held : Error
not_held = plain (bytes "advisory lock was not held by the session")

-- ReleaseAdvisoryLock of a connection that is not nil; conn.Close gives the connection back.
unfoldable pub release_advisory_lock : ℤ → Unlock → RawAnswer → Option Error → List ℤ → Release
unfolding discard_connection
release_advisory_lock key (not_run e) raw close locks = discarded e locks (discard_connection raw)
release_advisory_lock key (answer_lost e) raw close locks =
    discarded e (unlocked key locks) (discard_connection raw)
release_advisory_lock key answered_with raw close locks =
    if holds key locks
    then record { failure = close; fate = pooled; locks = unlocked key locks }
    else discarded not_held locks (discard_connection raw)
