-- ===== src/Notification/Moves.antt =====
-- The outbox as an abstract system: whatever any session of the program may do to the table of
-- notification jobs, at any time and with any job value, a stale one too.
use cryptopulse_telegram_bot.Prelude.{
  ℕ, ◌≡◌, ◌≢◌, refl, sym, subst, ◌∙◌, inr, Bool, true, false, none, List, [], ◌∷◌, ◌++◌, All,
  All-append, All-map, Elem,
}
use cryptopulse_telegram_bot.Bytes.{Bytes}
use cryptopulse_telegram_bot.Schema.{NotificationRow, Db, is_open, is_pending}
use cryptopulse_telegram_bot.Table.{update, delete}
use cryptopulse_telegram_bot.Table.Laws.{All-update, All-delete}
use cryptopulse_telegram_bot.Session.{Env, World, Counter, bump}
use cryptopulse_telegram_bot.Session.Rules.{Interleaved, start, more}
use cryptopulse_telegram_bot.Notification.Jobs.{
  NotificationJob, Ending, claimed, claimable, is_candidate, row_change, owns, claim_row, end_claim,
  and_claimable, canceled_row,
}

-- A row as an INSERT leaves it.
pub record IsNew (row : NotificationRow) : Type 0 where
  pub waiting : is_pending row.status ≡ true
  pub no_token : row.claim_token ≡ none
  pub no_lease : row.claimed_until ≡ none

-- A claim, an end of a claim, a new row with a new id of the sequence, the cancelation of open rows (of
-- an alert or of a subscription), a deletion of final rows, and anything that does not concern the
-- table.
pub data Move (d : Db) : Db → Type 0 where
  claim : (id token now : ℕ) → Move d (claim_row id token now d).1
  end : (job : NotificationJob) (ending : Ending) (now : ℕ) → Move d (end_claim job ending now d)
  create :
      (row : NotificationRow)
      → IsNew row
      → ¬ Elem row.id d.job_ids
      → Move d (record d {
        notification_jobs = d.notification_jobs ++ row ∷ [];
        job_ids = row.id ∷ d.job_ids;
      })
  withdraw :
      (p : NotificationRow → Bool) (error : Bytes) (now : ℕ)
      → ((row : NotificationRow) → p row ≡ true → is_open row.status ≡ true)
      → Move d
          (record d { notification_jobs = update p (canceled_row error now) d.notification_jobs })
  forget :
      (p : NotificationRow → Bool)
      → ((row : NotificationRow) → p row ≡ true → is_open row.status ≡ false)
      → Move d (record d { notification_jobs = delete p d.notification_jobs })
  elsewhere :
      (e : Db) → e.notification_jobs ≡ d.notification_jobs → e.job_ids ≡ d.job_ids → Move d e

pub data Moves (d : Db) : Db → Type 0 where
  here : Moves d d
  next : {e f : Db} → Moves d e → Move e f → Moves d f

pub Moves-trans : {d e f : Db} → Moves d e → Moves e f → Moves d f
Moves-trans r here = r
Moves-trans r (next s m) = next (Moves-trans r s) m

-- A property of rows that every move keeps; the reserved ids have been given, so that no new row has
-- one of them.
pub record IsStable (P : NotificationRow → Type 0) (reserved : List ℕ) : Type 0 where
  pub claim_keeps :
      (token now : ℕ) (row : NotificationRow)
      → claimable now row ≡ true
      → P row
      → P (claimed token now row)
  pub end_keeps :
      (job : NotificationJob) (ending : Ending) (now : ℕ) (row : NotificationRow)
      → owns job row ≡ true
      → P row
      → P (row_change ending now row)
  pub withdraw_keeps :
      (error : Bytes) (now : ℕ) (row : NotificationRow)
      → is_open row.status ≡ true
      → P row
      → P (canceled_row error now row)
  pub new_holds : (row : NotificationRow) → All (λ n. row.id ≢ n) reserved → IsNew row → P row

module _ {P : NotificationRow → Type 0} {reserved : List ℕ} (stable : IsStable P reserved) where
  abbrev pub Holds : Db → Type 0
  Holds d = All (λ n. Elem n d.job_ids) reserved × All P d.notification_jobs

  pub Move-Holds : {d e : Db} → Move d e → Holds d → Holds e
  unfolding claim_row end_claim
  Move-Holds {d} (claim id token now) (b, h) = (
    b,
    All-update (is_candidate id now) (claimed token now) P d.notification_jobs
        (λ row c. stable.claim_keeps token now row (and_claimable id now row c)) h,
  )
  Move-Holds {d} (end job ending now) (b, h) = (
    b,
    All-update (owns job) (row_change ending now) P d.notification_jobs
        (stable.end_keeps job ending now) h,
  )
  Move-Holds {d} (create row n unused) (b, h) = (
    All-map _ _ reserved (λ m. inr) b,
    All-append P d.notification_jobs (row ∷ []) h (
      stable.new_holds row
          (All-map _ _ reserved (λ m given e. unused (subst (λ k. Elem k d.job_ids) (sym e) given))
            b)
          n,
      tt,
    ),
  )
  Move-Holds {d} (withdraw p error now opened) (b, h) = (
    b,
    All-update p (canceled_row error now) P d.notification_jobs
        (λ row c. stable.withdraw_keeps error now row (opened row c)) h,
  )
  Move-Holds {d} (forget p final) (b, h) = (b, All-delete p P d.notification_jobs h)
  Move-Holds {d} (elsewhere e same ids) (b, h) =
      (subst (λ given. All (λ n. Elem n given) reserved) (sym ids) b, subst (All P) (sym same) h)

  pub Moves-Holds : {d e : Db} → Moves d e → Holds d → Holds e
  Moves-Holds here h = h
  Moves-Holds (next s m) h = Move-Holds m (Moves-Holds s h)

-- The other sessions run the same program.
abbrev pub OthersMove : Env → Type 0
OthersMove env = (n : ℕ) (d : Db) → Moves d (env.others n d)

pub Interleaved-Moves : {env : Env} → OthersMove env → {d e : Db} → Interleaved env d e → Moves d e
Interleaved-Moves o start = here
Interleaved-Moves o (more {e = e} n i) = Moves-trans (Interleaved-Moves o i) (o n e)

-- What every part of a handler keeps: the database only moves, nothing is sent, and the locks are
-- those that were held before.
pub record Keeps (v w : World) : Type 0 where
  pub moved : Moves v.db w.db
  pub outbox_kept : w.outbox ≡ v.outbox
  pub held_kept : w.held ≡ v.held

-- The counters are no part of it.
pub Keeps-counted :
    {v w : World} {counters : List Counter} → Keeps v w → Keeps v (record w { counters = counters })
Keeps-counted k = record { moved = k.moved; outbox_kept = k.outbox_kept; held_kept = k.held_kept }

pub Keeps-refl : {w : World} → Keeps w w
Keeps-refl = record { moved = here; outbox_kept = refl; held_kept = refl }

pub Keeps-bump : {v w : World} → Keeps v w → Keeps v (bump w)
Keeps-bump k = record { moved = k.moved; outbox_kept = k.outbox_kept; held_kept = k.held_kept }

pub Keeps-trans : {u v w : World} → Keeps u v → Keeps v w → Keeps u w
Keeps-trans a b = record {
  moved = Moves-trans a.moved b.moved;
  outbox_kept = b.outbox_kept ∙ a.outbox_kept;
  held_kept = b.held_kept ∙ a.held_kept;
}
