-- ===== src/Alert/Limit.antt =====
-- A chat has at most ten live alerts.
use cryptopulse_telegram_bot.Prelude.{
  ℕ, ◌+◌, ◌≤◌, ◌≡◌, refl, sym, subst, arith, Bool, true, false, ◌&&◌, Option, none, some, leb, ◌==◌,
  ℤ, eqb_ℤ, if◌then◌else◌, if_both, any, String,
}
use cryptopulse_telegram_bot.Bytes.{Bytes}
use cryptopulse_telegram_bot.Schema.{AlertRow, Db}
use cryptopulse_telegram_bot.Table.Laws.{affected_last}
use cryptopulse_telegram_bot.Update.{PriceEntry}
use cryptopulse_telegram_bot.Session.{Env, World, refreshed}
use cryptopulse_telegram_bot.Session.Rules.{exec_continue, read_continue, if_then}
use cryptopulse_telegram_bot.Alert.Rows.{is_live, live_alerts, insert_alert, conflicts}
use cryptopulse_telegram_bot.Alert.Create.{
  max_active_price_alerts, new_alert, insert_new, create_counted, create_at, create_from,
  create_price_alert, is_stale,
}

insert_alert_adds :
    (chat : ℤ) (row : AlertRow) (now : ℕ) (db : Db)
    → live_alerts chat (insert_alert row now db).1 ≤ live_alerts chat db + 1
unfolding insert_alert
insert_alert_adds chat row now db =
    if_both {A = Option ℕ × Db} (λ r. live_alerts chat r.1 ≤ live_alerts chat db + 1)
      (any (conflicts row) db.price_alerts) _ _ (omega arith)
      (ground (
        arith,
        affected_last (λ a. eqb_ℤ a.chat_id chat && is_live db a) db.price_alerts
            (record row { id = db.next_alert_id; updated_at = now }),
      ))

module _ (env : Env) (chat : ℤ) where
  -- Other sessions add no live alert of the chat: they would need its lock.
  abbrev pub NoneAdded : Type 0
  NoneAdded = (n : ℕ) (d : Db) → live_alerts chat (env.others n d) ≤ live_alerts chat d

  -- What the transaction commits if it ends now, or else what is committed.
  abbrev pub visible : World → Db
  visible w = if w.writing then w.view else w.db

  abbrev pub AtMost : ℕ → World → Type 0
  AtMost n w = live_alerts chat (visible w) ≤ n

  refreshed-AtMost :
      NoneAdded
      → (n : ℕ) (w : World) → AtMost n w
      → (live_alerts chat (refreshed env w).view ≤ n)
        × (visible (refreshed env w) ≡ (refreshed env w).view)
  refreshed-AtMost none_added n w h = found w.writing h
    where
      found :
          (b : Bool)
          → AtMost n (record w { writing = b })
          → (live_alerts chat (refreshed env (record w { writing = b })).view ≤ n)
            × (visible (refreshed env (record w { writing = b }))
                ≡ (refreshed env (record w { writing = b })).view)
      found true most = (most, refl)
      found false most = (omega (arith, most, none_added w.calls w.db), refl)

  visible-AtMost :
      (n : ℕ) (w : World) → visible w ≡ w.view → live_alerts chat w.view ≤ n → AtMost n w
  visible-AtMost n w same h = subst (λ d. live_alerts chat d ≤ n) (sym same) h

  insert_new_lem :
      NoneAdded → (row : ℕ → AlertRow) (w : World) → AtMost 9 w → AtMost 10 (insert_new env row w).1
  unfolding insert_new
  insert_new_lem none_added row w h =
      exec_continue env (λ r. AtMost 10 r.1) _ (insert_alert (row (env.clock w.calls))) w
        (λ m. visible-AtMost 10 (refreshed env w) v.1 (omega (arith, v.0)))
        (omega (
          arith,
          v.0,
          insert_alert_adds chat (row (env.clock w.calls)) (refreshed env w).tx_now
              (refreshed env w).view,
        ))
    where
      v :
          (live_alerts chat (refreshed env w).view ≤ 9)
          × (visible (refreshed env w) ≡ (refreshed env w).view)
      v = refreshed-AtMost none_added 9 w h

  create_counted_lem :
      NoneAdded
      → (entry : PriceEntry) (row : ℕ → AlertRow) (count now : ℕ) (w : World) → AtMost 10 w
      → AtMost count w
      → AtMost 10 (create_counted env chat entry row (count, now) w).1
  unfolding create_counted
  create_counted_lem none_added entry row count now w most h =
      if_then (λ r. AtMost 10 r.1) (is_stale entry now) _ _ w (λ stale. most)
        (λ fresh.
          if_then (λ r. AtMost 10 r.1) (leb max_active_price_alerts count) _ _ w (λ full. most)
            (λ free. insert_new_lem none_added row w (ground (arith, h, free))))

  create_at_lem :
      NoneAdded
      → (update_id : ℕ) (lang : String) (symbol : Bytes) (percent : ℤ) (entry : PriceEntry)
      → (target : Option ℕ) (w : World) → AtMost 10 w
      → AtMost 10 (create_at env update_id chat lang symbol percent entry target w).1
  unfolding create_at
  create_at_lem none_added update_id lang symbol percent entry none w h = h
  create_at_lem none_added update_id lang symbol percent entry (some target) w h =
      read_continue env (λ r. AtMost 10 r.1) _ _ w
        (λ m. visible-AtMost 10 (refreshed env w) v.1 v.0)
        (create_counted_lem none_added entry
          (new_alert update_id chat lang symbol percent entry target) _ (env.clock w.calls) _
          (visible-AtMost 10 (refreshed env w) v.1 v.0)
          (visible-AtMost _ (refreshed env w) v.1 (omega arith)))
    where
      v :
          (live_alerts chat (refreshed env w).view ≤ 10)
          × (visible (refreshed env w) ≡ (refreshed env w).view)
      v = refreshed-AtMost none_added 10 w h

  create_from_lem :
      NoneAdded
      → (update_id : ℕ) (lang : String) (symbol : Bytes) (percent : ℤ) (e : Option PriceEntry)
      → (w : World) → AtMost 10 w
      → AtMost 10 (create_from env update_id chat lang symbol percent e w).1
  unfolding create_from
  create_from_lem none_added update_id lang symbol percent none w h = h
  create_from_lem none_added update_id lang symbol percent (some entry) w h =
      if_then (λ r. AtMost 10 r.1) (entry.updated_at == 0) _ _ w (λ unset. h)
        (λ set. create_at_lem none_added update_id lang symbol percent entry _ w h)

  -- In a transaction that holds the lock of the chat, so that other sessions add no live alert of it,
  -- a chat with at most ten live alerts has at most ten after createPriceAlert, whatever it returns.
  -- Live are the active alerts and those with an open notification job; what counts is the
  -- transaction's view once it has written, and else the committed database.
  pub create_price_alert-AtMost :
      NoneAdded
      → (update_id : ℕ) (lang : String) (symbol : Bytes) (percent : ℤ) (w : World) → AtMost 10 w
      → AtMost 10 (create_price_alert env update_id chat lang symbol percent w).1
  unfolding create_price_alert
  create_price_alert-AtMost none_added update_id lang symbol percent w h =
      create_from_lem none_added update_id lang symbol percent (env.price_entry w.calls symbol) w h
