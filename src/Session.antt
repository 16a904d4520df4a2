-- ===== src/Session.antt =====
-- Database sessions as the handlers of internal/app use them, with everything that the process does
-- not decide taken from an environment: the database's clock, the failure of each call, the outcome
-- of a commit, what other sessions commit in between, advisory locks, uuids and Telegram's answers.
--
-- A transaction works on a view of the database. Until its first write other sessions may commit
-- before each of its statements (READ COMMITTED); after it none is interleaved before the
-- transaction ends. Leaving a transaction by an error drops the view, as the deferred Rollback does.
pub mod Rules
pub mod Steps
pub mod Quiet
use cryptopulse_telegram_bot.Prelude.{
  ℕ, suc, String, Bool, true, false, if◌then◌else◌, Option, none, some, List, [], ◌∷◌, ℤ, drop,
}
use cryptopulse_telegram_bot.Bytes.{Bytes}
use cryptopulse_telegram_bot.GoError.{Error, ApiError, api, plain}
use cryptopulse_telegram_bot.Schema.{Db}
use cryptopulse_telegram_bot.Update.{DecodedUpdate, TelegramReply, CallbackAnswer, PriceEntry}

-- A commit, or a statement outside a transaction: it takes effect; it does not, and an error is
-- returned; or it does and the answer is lost, so that an error is returned too.
pub data Commit : Type 0 where
  applied : Commit
  refused : Bytes → Commit
  unconfirmed : Bytes → Commit

-- What bot.Send returns: the message's id, an answer of the API with an error, or another error.
pub data Answer : Type 0 where
  delivered : ℕ → Answer
  rejected : ApiError → Answer
  unreachable : Bytes → Answer

-- The functions are asked at the number of the call, but for the two of encoding/json: the error, if
-- any, of decoding a stored keyboard, and the decoded update of a payload. Other goroutines write the
-- price cache, so that its entries and the text that is rendered from them belong here too.
pub record Env : Type 0 where
  pub clock : ℕ → ℕ
  pub failure : ℕ → Option Bytes
  pub commit : ℕ → Commit
  pub others : ℕ → Db → Db
  pub lock_free : ℕ → Bool
  pub uuid : ℕ → ℕ
  pub telegram : ℕ → Answer
  pub context_error : ℕ → Option Bytes
  pub row_locked : ℕ → ℕ → Bool
  pub subscriber_locked : ℕ → ℤ → Bool
  pub prices : ℕ → String → Bytes
  pub price_entry : ℕ → Bytes → Option PriceEntry
  pub markup_error : Bytes → Option Bytes
  pub decode_update : Bytes → DecodedUpdate

-- The Prometheus counters that the modelled code increments, with their labels, and the gauge of the ages
-- of prices, with the nanoseconds that it is set to.
pub data Counter : Type 0 where
  db_operations_total : String → String → Counter
  cron_deliveries_total : String → Counter
  price_alert_deliveries_total : String → Counter
  telegram_send_errors_total : String → Counter
  telegram_replies_total : String → Counter
  webhook_updates_total : String → Counter
  cron_runs_total : String → Counter
  cron_claimed_subscribers_total : ℕ → Counter
  binance_requests_total : Bytes → String → Counter
  price_age_seconds : Bytes → ℕ → Counter

-- A message as it goes to the Telegram API. The world logs it with the chats whose session-level
-- advisory lock is held at that moment.
pub record Outgoing : Type 0 where
  pub chat_id : ℤ
  pub text : Bytes
  pub refresh_keyboard : Bool
  pub markup : Option Bytes
  pub edited_message : Option ℕ

-- `writing` says that the running transaction has written; `collected` and `callbacks` are the
-- telegramReplyCollector of the update that is processed, and `callback_log` the answers to callback
-- queries that have gone to Telegram.
pub record World : Type 0 where
  pub db : Db
  pub view : Db
  pub tx_now : ℕ
  pub writing : Bool
  pub collected : List TelegramReply
  pub callbacks : List CallbackAnswer
  pub callback_log : List CallbackAnswer
  pub calls : ℕ
  pub held : List ℤ
  pub outbox : List (Outgoing × List ℤ)
  pub counters : List Counter

pub data Result {ℓ} (A : Type ℓ) : Type ℓ where
  ok : A → Result A
  err : Error → Result A

-- An action that cannot fail, and one that returns a Go error.
abbrev pub Act : Type 0 → Type 0
Act A = World → A × World

abbrev pub Try : Type 0 → Type 0
Try A = World → Result A × World

abbrev pub bump : World → World
bump w = record w { calls = suc w.calls }

abbrev pub inc : Counter → Act (Unit {0})
inc c w = (tt, record w { counters = c ∷ w.counters })

-- The rest of a chain after the outcome of its first action: an error skips it.
unfoldable pub continue : {A B : Type 0} → (A → Try B) → Result A × World → Result B × World
continue f (ok a, w) = f a w
continue f (err e, w) = (err e, w)

-- `if err != nil { … } else { … }` where no error is returned any more.
unfoldable pub handle :
    {A B : Type 0} → (A → Act B) → (Error → Act B) → Result A × World → B × World
handle f g (ok a, w) = f a w
handle f g (err e, w) = g e w

-- Going on unless a context has been canceled.
unfoldable pub unless_done : {A : Type 0} → Option Bytes → (Bytes → A) → Act A → Act A
unless_done (some m) stop go w = (stop m, w)
unless_done none stop go w = go w

infixl 5 ◌>>=◌ ◌>>◌
abbrev pub ◌>>=◌ : {A B : Type 0} → Try A → (A → Try B) → Try B
◌>>=◌ m f w = continue f (m w)

abbrev pub ◌>>◌ : {A : Type 0} → Try (Unit {0}) → Try A → Try A
m >> k = m >>= λ _. k

abbrev pub return : {A : Type 0} → A → Try A
return a w = (ok a, w)

abbrev pub fail : {A : Type 0} → Error → Try A
fail e w = (err e, w)

-- A counter is incremented, and then the call returns a value or an error.
abbrev pub counting : {A : Type 0} → Counter → A → Try A
counting c a w = (ok a, (inc c w).1)

abbrev pub counting_fail : {A : Type 0} → Counter → Error → Try A
counting_fail c e w = (err e, (inc c w).1)

-- The world after the "error" counter of an operation.
abbrev pub count_error : String → World → World
count_error operation w = (inc (db_operations_total operation "error") w).1

unfoldable pub observe_error : {A : Type 0} → String → Result A × World → Result A × World
observe_error operation (ok a, w) = (ok a, w)
observe_error operation (err e, w) = (err e, count_error operation w)

-- `if err != nil { DBOperationsTotal(operation, "error").Inc(); return err }` around a call.
abbrev pub observed : {A : Type 0} → String → Try A → Try A
observed operation m w = observe_error operation (m w)

-- A call that fails with a driver's error leaves the first world, and one that succeeds the second
-- with its value.
unfoldable pub answered : {A : Type 0} → Option Bytes → World → A → World → Result A × World
answered (some m) failed a done = (err (plain m), failed)
answered none failed a done = (ok a, done)

unfoldable pub confirmed : {A : Type 0} → Commit → World → A → World → Result A × World
confirmed applied failed a done = (ok a, done)
confirmed (refused m) failed a done = (err (plain m), failed)
confirmed (unconfirmed m) failed a done = (err (plain m), done)

abbrev pub answer_result : Answer → Result ℕ
answer_result (delivered id) = ok id
answer_result (rejected e) = err (api e)
answer_result (unreachable m) = err (plain m)

module _ (env : Env) where
  -- db.BeginTx: NOW() is from here on the time of this call.
  abbrev pub begin : Try (Unit {0})
  begin w =
      answered (env.failure w.calls) (bump w) tt
        (record (bump w) { view = w.db; tx_now = env.clock w.calls; writing = false })

  -- A statement of a transaction that has written nothing yet.
  abbrev pub statement : {A : Type 0} → (ℕ → Db → A × Db) → Try A
  statement f w =
      let db = env.others w.calls w.db in
      answered (env.failure w.calls) (record (bump w) { db = db; view = db }) (f w.tx_now db).0
        (record (bump w) { db = db; view = (f w.tx_now db).1 })

  -- What a statement of a transaction finds: before the first write, what others have committed.
  abbrev pub refreshed : World → World
  refreshed w = if w.writing then w else overtaken w
    where
      overtaken : World → World
      overtaken w' = let db = env.others w'.calls w'.db in record w' { db = db; view = db }

  -- A query and a write of a transaction that may have written.
  unfoldable pub read : {A : Type 0} → (ℕ → Db → A) → Try A
  read f w =
      let v = refreshed w in answered (env.failure w.calls) (bump v) (f v.tx_now v.view) (bump v)

  unfoldable pub exec : {A : Type 0} → (ℕ → Db → A × Db) → Try A
  exec f w =
      let v = refreshed w in
      answered (env.failure w.calls) (bump v) (f v.tx_now v.view).0
        (record (bump v) { view = (f v.tx_now v.view).1; writing = true })

  -- A statement of a transaction that has written.
  abbrev pub further : {A : Type 0} → (ℕ → Db → A × Db) → Try A
  further f w =
      answered (env.failure w.calls) (bump w) (f w.tx_now w.view).0
        (record (bump w) { view = (f w.tx_now w.view).1 })

  -- result.RowsAffected()
  abbrev pub rows_affected : ℕ → Try ℕ
  rows_affected n w = answered (env.failure w.calls) (bump w) n (bump w)

  abbrev pub commit : Try (Unit {0})
  commit w = confirmed (env.commit w.calls) (bump w) tt (record (bump w) { db = w.view })

  -- A statement outside any transaction, which commits by itself.
  abbrev pub autocommit : {A : Type 0} → (ℕ → Db → A × Db) → Try A
  autocommit f w =
      let db = env.others w.calls w.db in
      let after = f (env.clock w.calls) db in
      confirmed (env.commit w.calls) (record (bump w) { db = db }) after.0
        (record (bump w) { db = after.1 })

  -- A query outside any transaction.
  abbrev pub query : {A : Type 0} → (ℕ → Db → A) → Try A
  query f w =
      let db = env.others w.calls w.db in
      let done = record (bump w) { db = db } in
      answered (env.failure w.calls) done (f (env.clock w.calls) db) done

  -- SELECT pg_try_advisory_xact_lock(key)
  abbrev pub try_lock : Try Bool
  try_lock w = answered (env.failure w.calls) (bump w) (env.lock_free w.calls) (bump w)

  -- Taking the session-level advisory lock of a chat on a connection of the lock pool; it may fail
  -- or time out.
  abbrev pub acquire_lock : ℤ → Try (Unit {0})
  acquire_lock chat w =
      answered (env.failure w.calls) (bump w) tt (record (bump w) { held = chat ∷ w.held })

  -- bot.Send(msg)
  abbrev pub send : Outgoing → Try ℕ
  send m w =
      (answer_result (env.telegram w.calls), record (bump w) { outbox = (m, w.held) ∷ w.outbox })

  -- The deferred release: the session gives the lock back, or its connection is discarded, which ends
  -- the session and its locks.
  abbrev pub release_lock : Act (Unit {0})
  release_lock w = (tt, record (bump w) { held = drop 1 w.held })

  -- ctx.Err()
  abbrev pub check_context : Act (Option Bytes)
  check_context w = (env.context_error w.calls, bump w)
