-- ===== src/Http/Acknowledged.antt =====
-- An update that the webhook acknowledges is in the inbox.
use cryptopulse_telegram_bot.Prelude.{
  ℕ, ◌≡◌, ◌≢◌, refl, sym, subst, ◌∙◌, arith, Bool, true, false, not, ◌||◌, Option, none, some, List,
  [], ◌∷◌, ◌++◌, ◌==◌, ==_refl, any, if_both, if◌then◌else◌,
}
use cryptopulse_telegram_bot.Bytes.{Bytes, bytes, bytes_eq}
use cryptopulse_telegram_bot.GoError.{Error}
use cryptopulse_telegram_bot.App.{App}
use cryptopulse_telegram_bot.Config.{Config}
use cryptopulse_telegram_bot.Schema.{UpdateRow, Db}
use cryptopulse_telegram_bot.Update.{
  Update, DecodedUpdate, malformed, decoded, telegram_update_chat_id,
}
use cryptopulse_telegram_bot.Session.{Env, World, webhook_updates_total, Result, ok, err}
use cryptopulse_telegram_bot.Session.Rules.{handle_then, act_if_then}
use cryptopulse_telegram_bot.HttpServer.{Handler, method_only, rate_limited}
use cryptopulse_telegram_bot.Inbox.Save.{save_telegram_update}
use cryptopulse_telegram_bot.Inbox.Saving.{
  SaveOutcome, stored_row, found, stored, known, broken, lost, save_telegram_update-SaveOutcome,
}
use cryptopulse_telegram_bot.Http.{
  Request, Producers, enter, safe_secret_compare, unauthorized, webhook_auth_middleware,
}
use cryptopulse_telegram_bot.Http.Endpoints.{
  status_ok, save_decoded, save_update, save_body, handle_webhook,
}
use cryptopulse_telegram_bot.Http.Routes.{
  Service, on_world, entered_as, producer_middleware, count_in, ask_client, webhook_route,
}

abbrev pub has_update : ℕ → Db → Bool
has_update id db = any (λ (u : UpdateRow). u.update_id == id) db.telegram_updates

any-append :
    {A : Type 0} (p : A → Bool) (xs ys : List A) → any p ys ≡ true → any p (xs ++ ys) ≡ true
any-append p [] ys h = h
any-append p (x ∷ xs) ys h = rw (any-append p xs ys h) (or_true (p x))
  where
    or_true : (b : Bool) → (b || true) ≡ true
    or_true true = refl
    or_true false = refl

module _ (env : Env) (r : Request) where
  -- The body is an update, and the inbox has a row of its id.
  pub record IsAcknowledged (db : Db) : Type 0 where
    pub payload : Bytes
    pub read : r.body ≡ ok payload
    pub update : Update
    pub decoded_as : env.decode_update payload ≡ decoded update
    pub numbered : update.update_id ≢ 0
    pub kept : has_update update.update_id db ≡ true

  abbrev pub Acknowledges : ℕ × World → Type 0
  Acknowledges a = a.0 ≡ status_ok → IsAcknowledged a.1.db

  differ : (m : Error) (b : Bool) → err m ≡ ok b → ⊥
  differ m b h = cc

  saved_kept :
      (payload : Bytes) (u : Update) (w : World) (inserted : Bool) (x : Result Bool × World)
      → SaveOutcome env u.update_id (telegram_update_chat_id u) payload w x
      → x.0 ≡ ok inserted
      → has_update u.update_id x.1.db ≡ true
  saved_kept payload u w inserted x (stored e s) h =
      subst (λ l. any (λ (v : UpdateRow). v.update_id == u.update_id) l ≡ true) (sym s.updates)
        (any-append (λ (v : UpdateRow). v.update_id == u.update_id)
          (found env u.update_id (telegram_update_chat_id u) payload w).telegram_updates
          (stored_row env u.update_id (telegram_update_chat_id u) payload w ∷ [])
          (ground (arith, ==_refl u.update_id)))
  saved_kept payload u w inserted x (known e k d) h =
      subst (λ db. has_update u.update_id db ≡ true) (sym d) k
  saved_kept payload u w inserted x (broken m e d) h = absurd (differ _ inserted (sym e ∙ h))
  saved_kept payload u w inserted x (lost m e s) h = absurd (differ _ inserted (sym e ∙ h))

  update_kept :
      (payload : Bytes) (u : Update) (w : World)
      → r.body ≡ ok payload
      → env.decode_update payload ≡ decoded u
      → u.update_id ≢ 0
      → Acknowledges (save_update env payload u w)
  unfolding save_update
  update_kept payload u w read e n =
      handle_then Acknowledges _ _
        (save_telegram_update env u.update_id (telegram_update_chat_id u) payload w)
        (λ inserted h good. record {
          payload = payload;
          read = read;
          update = u;
          decoded_as = e;
          numbered = n;
          kept =
              saved_kept payload u w inserted _
                (save_telegram_update-SaveOutcome env u.update_id (telegram_update_chat_id u)
                  payload w)
                h;
        })
        (λ e h good. absurd (omega (arith, good)))

  decoded_kept :
      (payload : Bytes) (d : DecodedUpdate) (w : World)
      → r.body ≡ ok payload
      → env.decode_update payload ≡ d
      → Acknowledges (save_decoded env payload d w)
  unfolding save_decoded
  decoded_kept payload (malformed m) w read e = λ good. absurd (omega (arith, good))
  decoded_kept payload (decoded u) w read e =
      act_if_then Acknowledges (u.update_id == 0) _ _ w (λ zero good. absurd (omega (arith, good)))
        (λ more. update_kept payload u w read e (ground (arith, more)))

  body_kept : (b : Result Bytes) (w : World) → r.body ≡ b → Acknowledges (save_body env b w)
  unfolding save_body
  body_kept (err e) w h = λ good. absurd (omega (arith, good))
  body_kept (ok payload) w h = decoded_kept payload (env.decode_update payload) w h refl

module _ {L : Type 0} (new_limiter : ℕ → ℕ → L) (allow : ℕ → L → Bool × L) (time_now : ℕ → ℕ)
    (meanwhile : Producers → Producers) (env : Env) (app : App) (cfg : Config) (r : Request)
    (s : Service L) where
  abbrev Answers : ℕ × Service L → Type 0
  Answers a = a.0 ≡ status_ok → IsAcknowledged env r a.1.world.db

  produced : (t : Service L) → Answers (producer_middleware (on_world (handle_webhook env r)) t)
  unfolding producer_middleware handle_webhook
  produced t = entered (enter t.producers)
    where
      entered : (p : Option Producers) → Answers (entered_as (on_world (handle_webhook env r)) t p)
      entered none h = absurd (omega (arith, h))
      entered (some p) h = body_kept env r r.body t.world refl h

  -- What Telegram takes for delivered is stored: if the route of /webhook answers a request with 200,
  -- then the request has the secret of the configuration, its body is an update with an id that is
  -- not 0, and the committed database has a row of this id in the inbox.
  pub webhook_route-IsAcknowledged :
      (webhook_route new_limiter allow time_now meanwhile env app cfg r s).0 ≡ status_ok
      → (safe_secret_compare r.telegram_secret_token cfg.webhook_secret ≡ true)
        × IsAcknowledged env r
            (webhook_route new_limiter allow time_now meanwhile env app cfg r s).1.world.db
  unfolding webhook_route method_only webhook_auth_middleware rate_limited
  webhook_route-IsAcknowledged =
      if_both (λ (h : Handler (Service L)). Secured (h s)) (not (bytes_eq r.method (bytes "POST")))
        _ _ (λ good. absurd (omega (arith, good)))
        (secured (safe_secret_compare r.telegram_secret_token cfg.webhook_secret) refl)
    where
      Secured : ℕ × Service L → Type 0
      Secured a =
          a.0 ≡ status_ok
          → (safe_secret_compare r.telegram_secret_token cfg.webhook_secret ≡ true)
            × IsAcknowledged env r a.1.world.db

      limited : Service L → Bool × Service L
      limited = ask_client new_limiter allow time_now meanwhile env app cfg r

      secured :
          (b : Bool)
          → safe_secret_compare r.telegram_secret_token cfg.webhook_secret ≡ b
          → Secured (
              if not b
              then (unauthorized, count_in (webhook_updates_total "unauthorized") s)
              else rate_limited limited (producer_middleware (on_world (handle_webhook env r))) s)
      secured false e = λ good. absurd (omega (arith, good))
      secured true e =
          if_both Secured (limited s).0 _ _ (λ good. (e, produced (limited s).1 good))
            (λ good. absurd (omega (arith, good)))
