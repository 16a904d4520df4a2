-- ===== src/Mutation/Convergence.antt =====
-- The newest change of a setting wins, in whatever order the updates are processed.
use cryptopulse_telegram_bot.Prelude.{
  ◌≡◌, refl, sym, ap, ap₂, ◌∙◌, Bool, true, false, ◌&&◌, ◌||◌, List, [], ◌∷◌, ◌++◌, arith, eqb_ℤ,
  eqb_ℤ_iff, eqb_ℤ_refl, if◌then◌else◌, any, Bool-cases, ◌⊎◌, inl, inr,
}
use cryptopulse_telegram_bot.Schema.{VersionRow, Setting, subscription, interval, language}
use cryptopulse_telegram_bot.Table.{update, affected}
use cryptopulse_telegram_bot.Mutation.{same_setting, same_key, older, is_replaced, replaced, upsert}

-- Two versions of the same setting of the same chat, the first one older.
pub record IsOlder (a b : VersionRow) : Type 0 where
  pub key : same_key a b ≡ true
  pub before : older a b ≡ true

same_setting_sound : (s t : Setting) → same_setting s t ≡ true → s ≡ t
same_setting_sound subscription subscription e = refl
same_setting_sound interval interval e = refl
same_setting_sound language language e = refl
same_setting_sound subscription interval e = cc
same_setting_sound subscription language e = cc
same_setting_sound interval subscription e = cc
same_setting_sound interval language e = cc
same_setting_sound language subscription e = cc
same_setting_sound language interval e = cc

same_setting_refl : (s : Setting) → same_setting s s ≡ true
same_setting_refl subscription = refl
same_setting_refl interval = refl
same_setting_refl language = refl

and_parts : (x y : Bool) → (x && y) ≡ true → (x ≡ true) × (y ≡ true)
and_parts x y h = ground arith

and_true : (x y : Bool) → x ≡ true → y ≡ true → (x && y) ≡ true
and_true x y p q = ground (arith, p, q)

and_false : (x y : Bool) → y ≡ false → (x && y) ≡ false
and_false x y p = ground (arith, p)

and_off : (x y : Bool) → x ≡ false → (x && y) ≡ false
and_off x y p = ground (arith, p)

or_false : (x y : Bool) → (x || y) ≡ false → (x ≡ false) × (y ≡ false)
or_false x y h = ground arith

unreplaced : (k o q : Bool) → (k && q) ≡ false → (o ≡ true → q ≡ true) → (k && o) ≡ false
unreplaced k o q h f = ground arith

abbrev step : VersionRow → VersionRow → VersionRow
step v row = if is_replaced v row then replaced v row else row

step_hit : (v row : VersionRow) → is_replaced v row ≡ true → step v row ≡ replaced v row
step_hit v row e = rw e refl

step_skip : (v row : VersionRow) → is_replaced v row ≡ false → step v row ≡ row
step_skip v row e = rw e refl

module _ (a b : VersionRow) (h : IsOlder a b) where
  chats : a.chat_id ≡ b.chat_id
  chats = (eqb_ℤ_iff a.chat_id b.chat_id).0 (and_parts _ _ h.key).0

  settings : a.setting ≡ b.setting
  settings = same_setting_sound a.setting b.setting (and_parts _ _ h.key).1

  same_row : (row : VersionRow) → same_key a row ≡ same_key b row
  same_row row = ap₂ (λ c s. eqb_ℤ c row.chat_id && same_setting s row.setting) chats settings

  not_back : older b a ≡ false
  not_back = ground (arith, h.before)

  older_trans : (row : VersionRow) → older row a ≡ true → older row b ≡ true
  older_trans row e = ground (arith, h.before, e)

  -- One row under both changes.
  swap_row : (row : VersionRow) → step b (step a row) ≡ step a (step b row)
  swap_row row = elim (Bool-cases (is_replaced a row)) [
    | inl i ↦
        let parts = and_parts (same_key a row) (older row a) i in
        let key_b : same_key b row ≡ true = sym (same_row row) ∙ parts.0 in
        ap (step b) (step_hit a row i)
        ∙ step_hit b (replaced a row) (and_true _ _ key_b h.before)
        ∙ sym (step_skip a (replaced b row) (and_false _ _ not_back))
        ∙ sym (ap (step a) (step_hit b row (and_true _ _ key_b (older_trans row parts.1))))
    | inr i ↦ ap (step b) (step_skip a row i) ∙ elim (Bool-cases (is_replaced b row)) [
      | inl j ↦
          step_hit b row j
          ∙ sym (step_skip a (replaced b row) (and_false _ _ not_back))
          ∙ sym (ap (step a) (step_hit b row j))
      | inr j ↦ step_skip b row j ∙ sym (step_skip a row i) ∙ sym (ap (step a) (step_skip b row j))
    ]
  ]

  swap_rows :
      (rows : List VersionRow)
      → update (is_replaced b) (replaced b) (update (is_replaced a) (replaced a) rows)
        ≡ update (is_replaced a) (replaced a) (update (is_replaced b) (replaced b) rows)
  swap_rows [] = refl
  swap_rows (row ∷ rows) = ap₂ ◌∷◌ (swap_row row) (swap_rows rows)

  -- The keys of a table are those that a change leaves.
  any-step :
      (v w : VersionRow) (rows : List VersionRow)
      → any (same_key v) (update (is_replaced w) (replaced w) rows) ≡ any (same_key v) rows
  any-step v w [] = refl
  any-step v w (row ∷ rows) = ap₂ ◌||◌ (kept (is_replaced w row)) (any-step v w rows)
    where
      kept : (x : Bool) → same_key v (if x then replaced w row else row) ≡ same_key v row
      kept true = refl
      kept false = refl

  any_same : (rows : List VersionRow) → any (same_key a) rows ≡ any (same_key b) rows
  any_same [] = refl
  any_same (row ∷ rows) = ap₂ ◌||◌ (same_row row) (any_same rows)

  -- A row that is not older is left alone when no other row has the key.
  absent :
      (v x : VersionRow) (rows : List VersionRow)
      → is_replaced v x ≡ false
      → any (same_key v) rows ≡ false
      → (affected (is_replaced v) (rows ++ x ∷ []) ≡ 0)
        × (update (is_replaced v) (replaced v) (rows ++ x ∷ []) ≡ rows ++ x ∷ [])
  absent v x [] e k = (rw e refl, ap (λ r. r ∷ []) (step_skip v x e))
  absent v x (row ∷ rows) e k =
      let off = or_false (same_key v row) (any (same_key v) rows) k in
      let t = absent v x rows e off.1 in
      let skip : is_replaced v row ≡ false = and_off (same_key v row) (older row v) off.0 in
      (rw skip t.0, ap₂ ◌∷◌ (step_skip v row skip) t.1)

  any_last :
      (v x : VersionRow) (rows : List VersionRow)
      → same_key v x ≡ true
      → any (same_key v) (rows ++ x ∷ []) ≡ true
  any_last v x [] e = rw e refl
  any_last v x (row ∷ rows) e = ground (arith, any_last v x rows e)

  -- After the newer change no row is older than the other one.
  stale :
      (rows : List VersionRow)
      → affected (is_replaced a) (update (is_replaced b) (replaced b) rows) ≡ 0
  stale [] = refl
  stale (row ∷ rows) = rw (one (Bool-cases (is_replaced b row))) (stale rows)
    where
      one :
          (is_replaced b row ≡ true) ⊎ (is_replaced b row ≡ false)
          → is_replaced a (step b row) ≡ false
      one (inl i) = ap (is_replaced a) (step_hit b row i) ∙ and_false _ _ not_back
      one (inr i) =
          ap (is_replaced a) (step_skip b row i)
          ∙ ap (λ k. k && older row a) (same_row row)
          ∙ unreplaced (same_key b row) (older row a) (older row b) i (older_trans row)

  own_key : same_key b a ≡ true
  own_key = sym (same_row a) ∙ and_true _ _ (eqb_ℤ_refl a.chat_id) (same_setting_refl a.setting)

  -- The newer change replaces the older one when no other row has the key.
  alone :
      (rows : List VersionRow)
      → any (same_key b) rows ≡ false
      → update (is_replaced b) (replaced b) (rows ++ a ∷ []) ≡ rows ++ b ∷ []
  alone [] k =
      ap (λ r. r ∷ [])
        (step_hit b a (and_true (same_key b a) (older a b) own_key h.before)
          ∙ ap₂ (λ c s. record b { chat_id = c; setting = s }) chats settings)
  alone (row ∷ rows) k =
      let off = or_false (same_key b row) (any (same_key b) rows) k in
      ap₂ ◌∷◌ (step_skip b row (and_off (same_key b row) (older row b) off.0)) (alone rows off.1)

upsert_known :
    (v : VersionRow) (rows : List VersionRow)
    → any (same_key v) rows ≡ true
    → upsert v rows ≡ (affected (is_replaced v) rows, update (is_replaced v) (replaced v) rows)
unfolding upsert
upsert_known v rows e = rw e refl

upsert_new :
    (v : VersionRow) (rows : List VersionRow)
    → any (same_key v) rows ≡ false
    → upsert v rows ≡ (1, rows ++ v ∷ [])
unfolding upsert
upsert_new v rows e = rw e refl

-- The newest change wins: of two changes of one setting of a chat, the older one is not applied after
-- the newer one (no row is affected), and whatever the order in which the two are processed, the
-- table of versions ends up the same.
pub upsert_commutes :
    (a b : VersionRow) (rows : List VersionRow)
    → IsOlder a b
    → ((upsert a (upsert b rows).1).0 ≡ 0)
      × ((upsert b (upsert a rows).1).1 ≡ (upsert a (upsert b rows).1).1)
upsert_commutes a b rows h = elim (Bool-cases (any (same_key b) rows)) [
  | inl k ↦
      let ka : any (same_key a) rows ≡ true = any_same a b h rows ∙ k in
      let ab =
        ap (upsert a) (ap (λ r. r.1) (upsert_known b rows k))
        ∙ upsert_known a (update (is_replaced b) (replaced b) rows)
            (any-step a b h a b rows ∙ ka) in
      let ba =
        ap (upsert b) (ap (λ r. r.1) (upsert_known a rows ka))
        ∙ upsert_known b (update (is_replaced a) (replaced a) rows) (any-step a b h b a rows ∙ k) in
      (
        ap (λ r. r.0) ab ∙ stale a b h rows,
        ap (λ r. r.1) ba ∙ swap_rows a b h rows ∙ sym (ap (λ r. r.1) ab),
      )
  | inr k ↦
      let ka : any (same_key a) rows ≡ false = any_same a b h rows ∙ k in
      let ab =
        ap (upsert a) (ap (λ r. r.1) (upsert_new b rows k))
        ∙ upsert_known a (rows ++ b ∷ []) (any_last a b h a b rows h.key) in
      let ba =
        ap (upsert b) (ap (λ r. r.1) (upsert_new a rows ka))
        ∙ upsert_known b (rows ++ a ∷ []) (any_last a b h b a rows (own_key a b h)) in
      let left = absent a b h a b rows (and_false _ _ (not_back a b h)) ka in
      (
        ap (λ r. r.0) ab ∙ left.0,
        ap (λ r. r.1) ba ∙ alone a b h rows k ∙ sym (ap (λ r. r.1) ab ∙ left.1),
      )
]
