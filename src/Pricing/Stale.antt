-- ===== src/Pricing/Stale.antt =====
-- What the text of the prices tells about their age.
use cryptopulse_telegram_bot.Prelude.{
  ℕ, ◌+◌, ◌≤◌, ◌≡◌, ◌≢◌, ◌⊎◌, refl, subst, sym, ap, ◌∙◌, inl, inr, arith, Bool, true, false, not,
  ◌&&◌, ◌||◌, Option, none, some, List, [], ◌∷◌, String, ltb, ◌==◌, any, ◌++◌, Elem, if_both,
}
use cryptopulse_telegram_bot.Bytes.{Bytes, bytes}
use cryptopulse_telegram_bot.App.{App}
use cryptopulse_telegram_bot.Update.{PriceEntry}
use cryptopulse_telegram_bot.Workers.{minute}
use cryptopulse_telegram_bot.Telegram.{text}
use cryptopulse_telegram_bot.Handlers.Texts.{sprintf}
use cryptopulse_telegram_bot.Pricing.{price_age}
use cryptopulse_telegram_bot.Pricing.Cache.{PriceCache, load, tracked_coins}
use cryptopulse_telegram_bot.Pricing.Text.{
  Formats, Summary, is_stale, older_update, white_circle, price_line, add_line, summary, no_lines,
  with_time, with_warning, join_lines, formatted_prices,
}

-- An entry without a time, or more than a minute old.
abbrev pub stale_in : ℕ → Option PriceEntry → Bool
stale_in now none = false
stale_in now (some e) = e.updated_at == 0 || ltb (e.updated_at + minute) now

is_stale_lem : (now : ℕ) (e : PriceEntry) → is_stale now e ≡ stale_in now (some e)
unfolding is_stale price_age
is_stale_lem now e = ground arith

abbrev update_of : Option PriceEntry → ℕ
update_of none = 0
update_of (some e) = e.updated_at

module _ (known u : ℕ) where
  older_known : known ≢ 0 → (older_update known u ≢ 0) × (older_update known u ≤ known)
  unfolding older_update
  older_known h = ground (arith, h)

  older_new : u ≢ 0 → (older_update known u ≢ 0) × (older_update known u ≤ u)
  unfolding older_update
  older_new h = ground (arith, h)

  older_cases : (older_update known u ≡ known) ⊎ (older_update known u ≡ u)
  unfolding older_update
  older_cases =
      if_both (λ v. (v ≡ known) ⊎ (v ≡ u)) (not (u == 0) && (known == 0 || ltb u known)) u known
        (inr refl) (inl refl)

append_nil : {A : Type 0} → (xs : List A) → xs ++ [] ≡ xs
append_nil [] = refl
append_nil (x ∷ xs) = ap (λ l. x ∷ l) (append_nil xs)

append_assoc : {A : Type 0} → (xs ys zs : List A) → (xs ++ ys) ++ zs ≡ xs ++ (ys ++ zs)
append_assoc [] ys zs = refl
append_assoc (x ∷ xs) ys zs = ap (λ l. x ∷ l) (append_assoc xs ys zs)

any_some :
    {A : Type 0} (p : A → Bool) (xs : List A) (x : A) → Elem x xs → p x ≡ true → any p xs ≡ true
any_some p [] x e h = absurd e
any_some p (y ∷ xs) x (inl e) h = ground (arith, subst (λ z. p z ≡ true) e h)
any_some p (y ∷ xs) x (inr e) h = ground (arith, any_some p xs x e h)

any_all_false :
    {A : Type 0} (p : A → Bool) (xs : List A)
    → ((x : A) → Elem x xs → p x ≡ false)
    → any p xs ≡ false
any_all_false p [] h = refl
any_all_false p (x ∷ xs) h = ground (arith, h x (inl refl), any_all_false p xs (λ y e. h y (inr e)))

module _ (fm : Formats) (app : App) (lang : String) (now : ℕ) (cache : PriceCache) where
  abbrev entry_of : Bytes × Bytes → Option PriceEntry
  entry_of coin = load coin.0 cache

  -- The time of the oldest update among the coins: 0 if none has a time.
  pub record IsOldest (coins : List (Bytes × Bytes)) (t : ℕ) : Type 0 where
    pub lower :
        (coin : Bytes × Bytes)
        → Elem coin coins
        → update_of (entry_of coin) ≢ 0
        → (t ≢ 0) × (t ≤ update_of (entry_of coin))
    pub attained :
        t ≢ 0 → (coin : Bytes × Bytes) × Elem coin coins × (update_of (entry_of coin) ≡ t)

  add_line_update :
      (symbol label : Bytes) (o : Option PriceEntry) (s : Summary)
      → (add_line fm app lang now symbol label o s).oldest_update
        ≡ older_update s.oldest_update (update_of o)
  unfolding add_line older_update
  add_line_update symbol label none s = refl
  add_line_update symbol label (some e) s = refl

  add_line_stale :
      (symbol label : Bytes) (o : Option PriceEntry) (s : Summary)
      → (add_line fm app lang now symbol label o s).has_stale_data
        ≡ (stale_in now o || s.has_stale_data)
  unfolding add_line
  add_line_stale symbol label none s = refl
  add_line_stale symbol label (some e) s = ap (λ b. b || s.has_stale_data) (is_stale_lem now e)

  or_swap : (a b c : Bool) → (a || (b || c)) ≡ ((b || a) || c)
  or_swap true true c = refl
  or_swap true false c = refl
  or_swap false true c = refl
  or_swap false false c = refl

  summary_stale :
      (coins : List (Bytes × Bytes)) (s : Summary)
      → (summary fm app lang now coins cache s).has_stale_data
        ≡ (any (λ coin. stale_in now (entry_of coin)) coins || s.has_stale_data)
  unfolding summary
  summary_stale [] s = refl
  summary_stale (coin ∷ coins) s =
      summary_stale coins (add_line fm app lang now coin.0 coin.1 (load coin.0 cache) s)
      ∙ ap (λ b. any (λ c. stale_in now (entry_of c)) coins || b)
          (add_line_stale coin.0 coin.1 (load coin.0 cache) s)
      ∙ or_swap (any (λ c. stale_in now (entry_of c)) coins) (stale_in now (entry_of coin))
          s.has_stale_data

  -- The oldest of an update that is known and those of the coins.
  record IsOldestFrom (known : ℕ) (coins : List (Bytes × Bytes)) (t : ℕ) : Type 0 where
    below_known : known ≢ 0 → (t ≢ 0) × (t ≤ known)
    below :
        (coin : Bytes × Bytes)
        → Elem coin coins
        → update_of (entry_of coin) ≢ 0
        → (t ≢ 0) × (t ≤ update_of (entry_of coin))
    reached :
        t ≢ 0
        → (t ≡ known) ⊎ ((coin : Bytes × Bytes) × Elem coin coins × (update_of (entry_of coin) ≡ t))

  step_down :
      (known : ℕ) (coin : Bytes × Bytes) (coins : List (Bytes × Bytes)) (t : ℕ)
      → IsOldestFrom (older_update known (update_of (entry_of coin))) coins t
      → IsOldestFrom known (coin ∷ coins) t
  step_down known coin coins t h = record {
    below_known = λ k.
        let o = older_known known u k in
        let b = h.below_known o.0 in (b.0, omega (arith, o.1, b.1));
    below = below_all;
    reached = λ n. elim (h.reached n) [
      | inl e ↦ elim (older_cases known u) [
        | inl f ↦ inl (e ∙ f)
        | inr f ↦ inr (coin, inl refl, sym (e ∙ f))
      ]
      | inr c ↦ inr (c.0, inr c.1, c.2)
    ];
  }
    where
      u : ℕ
      u = update_of (entry_of coin)

      at_coin : u ≢ 0 → (t ≢ 0) × (t ≤ u)
      at_coin n =
          let o = older_new known u n in let b = h.below_known o.0 in (b.0, omega (arith, o.1, b.1))

      below_all :
          (c : Bytes × Bytes)
          → Elem c (coin ∷ coins)
          → update_of (entry_of c) ≢ 0
          → (t ≢ 0) × (t ≤ update_of (entry_of c))
      below_all c (inl e) n =
          subst (λ d. (t ≢ 0) × (t ≤ update_of (entry_of d))) (sym e)
            (at_coin (subst (λ d. update_of (entry_of d) ≢ 0) e n))
      below_all c (inr e) n = h.below c e n

  summary_oldest :
      (coins : List (Bytes × Bytes)) (s : Summary)
      → IsOldestFrom s.oldest_update coins (summary fm app lang now coins cache s).oldest_update
  unfolding summary
  summary_oldest [] s = record {
    below_known = λ k. (k, omega arith);
    below = λ c e n. absurd e;
    reached = λ n. inl refl;
  }
  summary_oldest (coin ∷ coins) s =
      let next = add_line fm app lang now coin.0 coin.1 (load coin.0 cache) s in
      step_down s.oldest_update coin coins _ (
        subst (λ k. IsOldestFrom k coins (summary fm app lang now coins cache next).oldest_update)
          (add_line_update coin.0 coin.1 (load coin.0 cache) s) (summary_oldest coins next))

  -- The line of a coin, which says that there is no data if the cache has no entry.
  abbrev pub line_of : Bytes × Bytes → Option PriceEntry → Bytes
  line_of coin none =
      white_circle ++ bytes " " ++ coin.1 ++ bytes ": " ++ text app.messages lang "no_data"
  line_of coin (some e) = price_line fm app lang now coin.0 coin.1 e

  abbrev pub lines_of : List (Bytes × Bytes) → List Bytes
  lines_of [] = []
  lines_of (coin ∷ coins) = line_of coin (entry_of coin) ∷ lines_of coins

  add_line_lines :
      (coin : Bytes × Bytes) (o : Option PriceEntry) (s : Summary)
      → (add_line fm app lang now coin.0 coin.1 o s).lines ≡ s.lines ++ line_of coin o ∷ []
  unfolding add_line
  add_line_lines coin none s = refl
  add_line_lines coin (some e) s = refl

  summary_lines :
      (coins : List (Bytes × Bytes)) (s : Summary)
      → (summary fm app lang now coins cache s).lines ≡ s.lines ++ lines_of coins
  unfolding summary
  summary_lines [] s = sym (append_nil s.lines)
  summary_lines (coin ∷ coins) s =
      summary_lines coins (add_line fm app lang now coin.0 coin.1 (load coin.0 cache) s)
      ∙ ap (λ l. l ++ lines_of coins) (add_line_lines coin (load coin.0 cache) s)
      ∙ append_assoc s.lines (line_of coin (entry_of coin) ∷ []) (lines_of coins)

  -- A time is known only if there is data.
  abbrev IsDated : Summary → Type 0
  IsDated s = s.oldest_update ≢ 0 → s.has_data ≡ true

  summary-IsDated :
      (coins : List (Bytes × Bytes)) (s : Summary)
      → IsDated s
      → IsDated (summary fm app lang now coins cache s)
  unfolding summary add_line
  summary-IsDated [] s h = h
  summary-IsDated (coin ∷ coins) s h = summary-IsDated coins _ (by_entry (load coin.0 cache))
    where
      by_entry : (o : Option PriceEntry) → IsDated (add_line fm app lang now coin.0 coin.1 o s)
      by_entry none = h
      by_entry (some e) = λ n. refl

  -- The lines of a text about some coins: one for each coin, in order; if an entry of one of them has a
  -- time, an empty line and a line with the oldest of these times; and if an entry of one of them has
  -- no time or is more than a minute old, a line that warns of stale data.
  pub record TellsAge (coins : List (Bytes × Bytes)) (lines : List Bytes) : Type 0 where
    pub oldest : ℕ
    pub is_oldest : IsOldest coins oldest
    pub timed : List Bytes
    pub no_time : oldest ≡ 0 → timed ≡ lines_of coins
    pub has_time :
        oldest ≢ 0
        → timed
          ≡ lines_of coins
            ++ []
              ∷ sprintf (text app.messages lang "price_data_time") (fm.time_of_day oldest ∷ [])
              ∷ []
    pub warned :
        (coin : Bytes × Bytes)
        → Elem coin coins
        → stale_in now (entry_of coin) ≡ true
        → lines ≡ timed ++ text app.messages lang "stale_data" ∷ []
    pub not_warned :
        ((coin : Bytes × Bytes) → Elem coin coins → stale_in now (entry_of coin) ≡ false)
        → lines ≡ timed

  summary-IsOldest :
      (coins : List (Bytes × Bytes))
      → IsOldest coins (summary fm app lang now coins cache no_lines).oldest_update
  summary-IsOldest coins = record { lower = o.below; attained = λ n. found (o.reached n) n }
    where
      o : IsOldestFrom 0 coins (summary fm app lang now coins cache no_lines).oldest_update
      o = summary_oldest coins no_lines

      t : ℕ
      t = (summary fm app lang now coins cache no_lines).oldest_update

      found :
          (t ≡ 0) ⊎ ((coin : Bytes × Bytes) × Elem coin coins × (update_of (entry_of coin) ≡ t))
          → t ≢ 0
          → (coin : Bytes × Bytes) × Elem coin coins × (update_of (entry_of coin) ≡ t)
      found (inl e) n = absurd (n e)
      found (inr c) n = c

  with_warning-TellsAge :
      (coins : List (Bytes × Bytes))
      → TellsAge coins (with_warning fm app lang now (summary fm app lang now coins cache no_lines))
  unfolding with_warning with_time
  with_warning-TellsAge coins = record {
    oldest = s.oldest_update;
    is_oldest = summary-IsOldest coins;
    timed = with_time fm app lang now s;
    no_time = λ e. untimed e;
    has_time = λ n. dated n;
    warned = λ coin i e. rw (summary_stale coins no_lines ∙ any_or coin i e) refl;
    not_warned = λ h. rw (summary_stale coins no_lines ∙ none_or h) refl;
  }
    where
      s : Summary
      s = summary fm app lang now coins cache no_lines

      lines : s.lines ≡ lines_of coins
      lines = summary_lines coins no_lines

      untimed : s.oldest_update ≡ 0 → with_time fm app lang now s ≡ lines_of coins
      untimed e = ground (arith, e, lines)

      dated :
          s.oldest_update ≢ 0
          → with_time fm app lang now s
            ≡ lines_of coins
              ++ []
                ∷ sprintf
                    (text app.messages lang "price_data_time")
                    (fm.time_of_day s.oldest_update ∷ [])
                ∷ []
      dated n = ground (arith, n, lines, summary-IsDated coins no_lines (λ k. absurd (k refl)) n)

      any_or :
          (coin : Bytes × Bytes)
          → Elem coin coins
          → stale_in now (entry_of coin) ≡ true
          → (any (λ c. stale_in now (entry_of c)) coins || false) ≡ true
      any_or coin i e =
          ap (λ b. b || false) (any_some (λ c. stale_in now (entry_of c)) coins coin i e)

      none_or :
          ((coin : Bytes × Bytes) → Elem coin coins → stale_in now (entry_of coin) ≡ false)
          → (any (λ c. stale_in now (entry_of c)) coins || false) ≡ false
      none_or h = ap (λ b. b || false) (any_all_false (λ c. stale_in now (entry_of c)) coins h)

-- The lines with a newline between each and the next.
abbrev pub continued : List Bytes → Bytes
continued [] = []
continued (l ∷ lines) = 10 ∷ l ++ continued lines

abbrev pub joined : List Bytes → Bytes
joined [] = []
joined (l ∷ lines) = l ++ continued lines

join_lines-joined :
    (fm : Formats) (app : App) (lang : String) (now : ℕ) (lines : List Bytes)
    → join_lines fm app lang now lines ≡ joined lines
unfolding join_lines
join_lines-joined fm app lang now [] = refl
join_lines-joined fm app lang now (l ∷ []) = sym (append_nil l)
join_lines-joined fm app lang now (l ∷ m ∷ lines) =
    ap (λ r. l ++ 10 ∷ r) (join_lines-joined fm app lang now (m ∷ lines))

-- What the text of the prices tells. Its lines, with a newline between each and the next, are: one for
-- each of the tracked coins, in order; then, exactly if the cache has an entry of one of them with a
-- time, an empty line and a line with the oldest of these times; then, exactly if the cache has an entry
-- of one of them without a time or more than a minute old, a line that warns of stale data.
pub formatted_prices-TellsAge :
    (fm : Formats) (app : App) (lang : String) (now : ℕ) (cache : PriceCache)
    → (lines : List Bytes) × TellsAge fm app lang now cache tracked_coins lines
      × (formatted_prices fm app lang now cache ≡ joined lines)
unfolding formatted_prices
formatted_prices-TellsAge fm app lang now cache = (
  with_warning fm app lang now (summary fm app lang now tracked_coins cache no_lines),
  with_warning-TellsAge fm app lang now cache tracked_coins,
  join_lines-joined fm app lang now _,
)
