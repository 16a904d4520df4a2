-- ===== src/Session/Steps.antt =====
-- Sequences of steps of the database, whoever makes them, and what the parts of a handler keep.
use cryptopulse_telegram_bot.Prelude.{ℕ, ◌≡◌, refl, ◌∙◌, List}
use cryptopulse_telegram_bot.Schema.{Db}
use cryptopulse_telegram_bot.Session.{Env, World, Counter}

pub data Steps (Step : Db → Db → Type 0) (d : Db) : Db → Type 0 where
  here : Steps Step d d
  next : {e f : Db} → Steps Step d e → Step e f → Steps Step d f

module _ {Step : Db → Db → Type 0} where
  pub Steps-trans : {d e f : Db} → Steps Step d e → Steps Step e f → Steps Step d f
  Steps-trans r here = r
  Steps-trans r (next s m) = next (Steps-trans r s) m

  pub Steps_keep :
      (P : Db → Type 0)
      → ((d e : Db) → Step d e → P d → P e)
      → {d e : Db} → Steps Step d e
      → P d
      → P e
  Steps_keep P keep here h = h
  Steps_keep P keep (next {e = e} {f = f} s m) h = keep e f m (Steps_keep P keep s h)

-- The other sessions only make such steps.
abbrev pub OthersStep : (Db → Db → Type 0) → Env → Type 0
OthersStep Step env = (n : ℕ) (d : Db) → Steps Step d (env.others n d)

-- The database only makes such steps, nothing is sent, and the locks are those that were held before.
pub record Keeps (Step : Db → Db → Type 0) (v w : World) : Type 0 where
  pub stepped : Steps Step v.db w.db
  pub outbox_kept : w.outbox ≡ v.outbox
  pub held_kept : w.held ≡ v.held

module _ {Step : Db → Db → Type 0} where
  pub Keeps-refl : {w : World} → Keeps Step w w
  Keeps-refl = record { stepped = here; outbox_kept = refl; held_kept = refl }

  -- The counters and the number of calls are no part of it.
  pub Keeps-counted :
      {v w : World} {counters : List Counter} {n : ℕ}
      → Keeps Step v w
      → Keeps Step v (record w { counters = counters; calls = n })
  Keeps-counted k = record {
    stepped = k.stepped;
    outbox_kept = k.outbox_kept;
    held_kept = k.held_kept;
  }

  pub Keeps-trans : {u v w : World} → Keeps Step u v → Keeps Step v w → Keeps Step u w
  Keeps-trans a b = record {
    stepped = Steps-trans a.stepped b.stepped;
    outbox_kept = b.outbox_kept ∙ a.outbox_kept;
    held_kept = b.held_kept ∙ a.held_kept;
  }
