-- ===== src/Storage/Released.antt =====
-- A connection in the pool holds no lock that was given back.
use cryptopulse_telegram_bot.Prelude.{◌≡◌, ◌≢◌, refl, false, Option, none, List, ℤ, if_both}
use cryptopulse_telegram_bot.GoError.{Error}
use cryptopulse_telegram_bot.Storage.Lock.{
  pooled, checked_out, RawAnswer, bad_conn, conn_done, other_error, Unlock, not_run, answered_with,
  answer_lost, unlocked, holds, Release, discarded, not_held, discard_connection,
  release_advisory_lock,
}

-- The session took the lock at most once.
abbrev pub HeldOnce : ℤ → List ℤ → Type 0
HeldOnce key locks = holds key (unlocked key locks) ≡ false

pub record IsGivenBack (key : ℤ) (r : Release) : Type 0 where
  pub pool_free : r.fate ≡ pooled → holds key r.locks ≡ false
  pub reported : r.fate ≢ pooled → r.failure ≢ none
  pub freed : r.fate ≢ checked_out → holds key r.locks ≡ false

discarded-IsGivenBack :
    (key : ℤ) (e : Error) (raw : RawAnswer) (locks : List ℤ)
    → IsGivenBack key (discarded e locks (discard_connection raw))
unfolding discard_connection
discarded-IsGivenBack key e bad_conn locks = record {
  pool_free = λ h. refl;
  reported = λ h. cc;
  freed = λ h. refl;
}
discarded-IsGivenBack key e conn_done locks = record {
  pool_free = λ h. refl;
  reported = λ h. cc;
  freed = λ h. refl;
}
discarded-IsGivenBack key e (other_error d) locks = record {
  pool_free = λ h. cc;
  reported = λ h. cc;
  freed = λ h. absurd (h refl);
}

-- A session is given back to the pool only without the lock. If the session took the lock at most
-- once, then after ReleaseAdvisoryLock: a connection that is in the pool does not hold it; a connection
-- that is not in the pool has led to an error; and unless database/sql refused to close the connection,
-- nobody holds the lock for this session any more, whatever became of the unlock and its answer.
pub release_advisory_lock-IsGivenBack :
    (key : ℤ) (u : Unlock) (raw : RawAnswer) (close : Option Error) (locks : List ℤ)
    → HeldOnce key locks
    → IsGivenBack key (release_advisory_lock key u raw close locks)
unfolding release_advisory_lock
release_advisory_lock-IsGivenBack key (not_run e) raw close locks once =
    discarded-IsGivenBack key e raw locks
release_advisory_lock-IsGivenBack key (answer_lost e) raw close locks once =
    discarded-IsGivenBack key e raw (unlocked key locks)
release_advisory_lock-IsGivenBack key answered_with raw close locks once =
    if_both (IsGivenBack key) (holds key locks) _ _
      (record { pool_free = λ h. once; reported = λ h. absurd (h refl); freed = λ h. once })
      (discarded-IsGivenBack key not_held raw locks)
