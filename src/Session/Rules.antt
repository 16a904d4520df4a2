-- ===== src/Session/Rules.antt =====
-- One rule for each kind of call of Session, followed by the rest of a handler: a statement about the
-- outcome holds if it holds on the branch of the error and on the branch of success. And which
-- databases other sessions can lead to.
use cryptopulse_telegram_bot.Prelude.{
  ℕ, String, Option, none, some, ◌≡◌, Bool, true, false, refl, if◌then◌else◌,
}
use cryptopulse_telegram_bot.Bytes.{Bytes}
use cryptopulse_telegram_bot.GoError.{Error, plain}
use cryptopulse_telegram_bot.Schema.{Db}
use cryptopulse_telegram_bot.Session.{
  Env, World, Result, Act, Try, handle, unless_done, ok, err, Commit, applied, refused, unconfirmed,
  answered, confirmed, continue, observe_error, count_error, bump, refreshed, exec, read,
}

module _ {A B : Type 0} (P : Result B × World → Type 0) (operation : String) (k : A → Try B) where
  pub answered_then :
      (o : Option Bytes) (failed : World) (a : A) (done : World)
      → ((m : Bytes) → P (err (plain m), count_error operation failed))
      → P (k a done)
      → P (continue k (observe_error operation (answered o failed a done)))
  unfolding continue observe_error answered
  answered_then none failed a done bad good = good
  answered_then (some m) failed a done bad good = bad m

  pub confirmed_then :
      (c : Commit) (failed : World) (a : A) (done : World)
      → ((m : Bytes) → P (err (plain m), count_error operation failed))
      → ((m : Bytes) → P (err (plain m), count_error operation done))
      → P (k a done)
      → P (continue k (observe_error operation (confirmed c failed a done)))
  unfolding continue observe_error confirmed
  confirmed_then applied failed a done bad lost good = good
  confirmed_then (refused m) failed a done bad lost good = bad m
  confirmed_then (unconfirmed m) failed a done bad lost good = lost m

-- A call whose error is returned as it is.
pub answered_cases :
    {A : Type 0} (P : Result A × World → Type 0) (o : Option Bytes) (failed : World) (a : A)
    (done : World)
    → ((m : Bytes) → P (err (plain m), failed))
    → P (ok a, done)
    → P (answered o failed a done)
unfolding answered
answered_cases P none failed a done bad good = good
answered_cases P (some m) failed a done bad good = bad m

pub if_then :
    {B : Type 0} (P : Result B × World → Type 0) (b : Bool) (x y : Try B) (w : World)
    → (b ≡ true → P (x w))
    → (b ≡ false → P (y w))
    → P ((if b then x else y) w)
if_then P true x y w yes_case no_case = yes_case refl
if_then P false x y w yes_case no_case = no_case refl

pub handle_then :
    {A B : Type 0} (P : B × World → Type 0) (f : A → Act B) (g : Error → Act B)
    (r : Result A × World)
    → ((a : A) → r.0 ≡ ok a → P (f a r.1))
    → ((e : Error) → r.0 ≡ err e → P (g e r.1))
    → P (handle f g r)
unfolding handle
handle_then P f g (ok a, w) good bad = good a refl
handle_then P f g (err e, w) good bad = bad e refl

pub answered_handle :
    {A B : Type 0} (P : B × World → Type 0) (f : A → Act B) (g : Error → Act B) (o : Option Bytes)
    (failed : World) (a : A) (done : World)
    → ((m : Bytes) → P (g (plain m) failed))
    → P (f a done)
    → P (handle f g (answered o failed a done))
unfolding handle answered
answered_handle P f g none failed a done bad good = good
answered_handle P f g (some m) failed a done bad good = bad m

pub unless_done_then :
    {A : Type 0} (P : A × World → Type 0) (o : Option Bytes) (stop : Bytes → A) (go : Act A)
    (w : World)
    → ((m : Bytes) → P (stop m, w))
    → P (go w)
    → P (unless_done o stop go w)
unfolding unless_done
unless_done_then P none stop go w stopped gone = gone
unless_done_then P (some m) stop go w stopped gone = stopped m

pub act_if_then :
    {A : Type 0} (P : A × World → Type 0) (b : Bool) (x y : Act A) (w : World)
    → (b ≡ true → P (x w))
    → (b ≡ false → P (y w))
    → P ((if b then x else y) w)
act_if_then P true x y w yes_case no_case = yes_case refl
act_if_then P false x y w yes_case no_case = no_case refl

-- What is left of a database when only other sessions have committed.
pub data Interleaved (env : Env) (d : Db) : Db → Type 0 where
  start : Interleaved env d d
  more : {e : Db} → (n : ℕ) → Interleaved env d e → Interleaved env d (env.others n e)

-- A call whose error is returned as it is, followed by the rest of a handler.
module _ {A B : Type 0} (P : Result B × World → Type 0) (k : A → Try B) where
  pub answered_continue :
      (o : Option Bytes) (failed : World) (a : A) (done : World)
      → ((m : Bytes) → P (err (plain m), failed))
      → P (k a done)
      → P (continue k (answered o failed a done))
  unfolding continue answered
  answered_continue none failed a done bad good = good
  answered_continue (some m) failed a done bad good = bad m

  pub confirmed_continue :
      (c : Commit) (failed : World) (a : A) (done : World)
      → ((m : Bytes) → P (err (plain m), failed))
      → ((m : Bytes) → P (err (plain m), done))
      → P (k a done)
      → P (continue k (confirmed c failed a done))
  unfolding continue confirmed
  confirmed_continue applied failed a done bad lost good = good
  confirmed_continue (refused m) failed a done bad lost good = bad m
  confirmed_continue (unconfirmed m) failed a done bad lost good = lost m

  pub ok_continue : (a : A) (w : World) → P (k a w) → P (continue k (ok a, w))
  unfolding continue
  ok_continue a w good = good

-- A statement of a transaction, at the world that it finds.
module _ (env : Env) {A B : Type 0} (P : Result B × World → Type 0) (k : A → Try B) where
  pub exec_continue :
      (f : ℕ → Db → A × Db) (w : World)
      → ((m : Bytes) → P (err (plain m), bump (refreshed env w)))
      → P (
          k (f (refreshed env w).tx_now (refreshed env w).view).0 (record (bump (refreshed env w)) {
            view = (f (refreshed env w).tx_now (refreshed env w).view).1;
            writing = true;
          }))
      → P (continue k (exec env f w))
  unfolding exec
  exec_continue f w bad good = answered_continue P k (env.failure w.calls) _ _ _ bad good

  pub read_continue :
      (f : ℕ → Db → A) (w : World)
      → ((m : Bytes) → P (err (plain m), bump (refreshed env w)))
      → P (k (f (refreshed env w).tx_now (refreshed env w).view) (bump (refreshed env w)))
      → P (continue k (read env f w))
  unfolding read
  read_continue f w bad good = answered_continue P k (env.failure w.calls) _ _ _ bad good

  -- The same with the counter of an operation.
  pub exec_then :
      (operation : String) (f : ℕ → Db → A × Db) (w : World)
      → ((m : Bytes) → P (err (plain m), count_error operation (bump (refreshed env w))))
      → P (
          k (f (refreshed env w).tx_now (refreshed env w).view).0 (record (bump (refreshed env w)) {
            view = (f (refreshed env w).tx_now (refreshed env w).view).1;
            writing = true;
          }))
      → P (continue k (observe_error operation (exec env f w)))
  unfolding exec
  exec_then operation f w bad good =
      answered_then P operation k (env.failure w.calls) _ _ _ bad good
