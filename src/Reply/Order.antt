-- ===== src/Reply/Order.antt =====
-- The replies of a chat go out in their order.
use cryptopulse_telegram_bot.Prelude.{
  ℕ, ◌<◌, ◌≡◌, sym, subst, ◌⊎◌, inl, inr, Bool, false, List, [], ◌∷◌, ◌++◌, arith, eqb_ℤ, All,
  All-append, All-map, any, if◌then◌else◌, Bool-cases,
}
use cryptopulse_telegram_bot.Schema.{ReplyRow, Db}
use cryptopulse_telegram_bot.Table.{update}
use cryptopulse_telegram_bot.Table.Laws.{All-update_to, All-delete}
use cryptopulse_telegram_bot.Session.Steps.{Steps, Steps_keep}
use cryptopulse_telegram_bot.Reply.Jobs.{
  TelegramReplyJob, Ending, delivered, deferred, given_up, row_change, owns, is_earlier, claimed,
  is_candidate, claim_row, end_claim,
}
use cryptopulse_telegram_bot.Reply.Moves.{Move, claim, end, create, forget, elsewhere}

-- A reply has not been claimed yet, or another row is not an earlier open one of its chat.
abbrev pub IsAfter : ReplyRow → ReplyRow → Type 0
IsAfter row other = (row.attempts ≡ 0) ⊎ (is_earlier row other ≡ false)

-- No reply has ever been claimed while an earlier one of its chat was open.
abbrev pub IsOrdered : Db → Type 0
IsOrdered d = All (λ row. All (IsAfter row) d.telegram_replies) d.telegram_replies

any-All :
    (row : ReplyRow) (rows : List ReplyRow)
    → any (is_earlier row) rows ≡ false
    → All (λ other. is_earlier row other ≡ false) rows
any-All row [] h = tt
any-All row (other ∷ rows) h = (ground arith, any-All row rows (ground arith))

All-and :
    {A : Type 0} (P Q : A → Type 0) (xs : List A) → All P xs → All Q xs → All (λ x. P x × Q x) xs
All-and P Q [] h k = tt
All-and P Q (x ∷ xs) h k = ((h.0, k.0), All-and P Q xs h.1 k.1)

-- An UPDATE of the table, row against row.
module _ (p : ReplyRow → Bool) (f : ReplyRow → ReplyRow) (S : ReplyRow → ReplyRow → Type 0)
    (one : (row other : ReplyRow)
      → S row other
      → IsAfter (if p row then f row else row) (if p other then f other else other)) where
  update-IsAfter :
      (rows : List ReplyRow)
      → All (λ row. All (S row) rows) rows
      → All (λ row. All (IsAfter row) (update p f rows)) (update p f rows)
  update-IsAfter rows =
      All-update_to p f (λ row. All (S row) rows) (λ row. All (IsAfter row) (update p f rows)) rows
        (λ row. All-update_to p f (S row) (IsAfter (if p row then f row else row)) rows (one row))

-- What a claim knows: nothing earlier is open.
abbrev Alone : ℕ → ℕ → List ReplyRow → ReplyRow → ReplyRow → Type 0
Alone id now rows row other =
    IsAfter row other × ((is_candidate id now rows row ≡ false) ⊎ (is_earlier row other ≡ false))

claim-Alone :
    (id now : ℕ) (rows : List ReplyRow) (row : ReplyRow)
    → All (IsAfter row) rows
    → All (Alone id now rows row) rows
claim-Alone id now rows row h = elim (Bool-cases (is_candidate id now rows row)) [
  | inl c ↦
      All-and _ _ rows h
        (All-map _ _ rows (λ other e. inr e) (any-All row rows (ground (arith, c))))
  | inr c ↦ All-map _ _ rows (λ other k. (k, inl c)) h
]

claim-IsAfter :
    (id token now : ℕ) (rows : List ReplyRow) (row other : ReplyRow)
    → Alone id now rows row other
    → IsAfter
        (if is_candidate id now rows row then claimed token now row else row)
        (if is_candidate id now rows other then claimed token now other else other)
claim-IsAfter id token now rows row other h = ground arith

end-IsAfter :
    (job : TelegramReplyJob) (ending : Ending) (now : ℕ) (row other : ReplyRow)
    → IsAfter row other
    → IsAfter
        (if owns job row then row_change ending now row else row)
        (if owns job other then row_change ending now other else other)
end-IsAfter job delivered now row other h = ground arith
end-IsAfter job (deferred delay error) now row other h = ground arith
end-IsAfter job (given_up error) now row other h = ground arith

Move-IsOrdered : (d e : Db) → Move d e → IsOrdered d → IsOrdered e
unfolding claim_row end_claim
Move-IsOrdered d e (claim id token now) h =
    update-IsAfter (is_candidate id now d.telegram_replies) (claimed token now)
      (Alone id now d.telegram_replies) (claim-IsAfter id token now d.telegram_replies)
      d.telegram_replies (All-map _ _ d.telegram_replies (claim-Alone id now d.telegram_replies) h)
Move-IsOrdered d e (end job ending now) h =
    update-IsAfter (owns job) (row_change ending now) IsAfter (end-IsAfter job ending now)
      d.telegram_replies h
Move-IsOrdered d e (create row next_id fresh greater) h =
    All-append _ d.telegram_replies (row ∷ [])
      (All-map _ _ d.telegram_replies
        (λ other k. All-append (IsAfter other) d.telegram_replies (row ∷ []) k.0 (inr k.1, tt))
        (All-and _ _ d.telegram_replies h
          (All-map _ _ d.telegram_replies (λ other k. not_earlier other k) greater)))
      (all_after (d.telegram_replies ++ row ∷ []), tt)
  where
    not_earlier :
        (other : ReplyRow)
        → (eqb_ℤ row.chat_id other.chat_id ≡ false) ⊎ (other.id < row.id)
        → is_earlier other row ≡ false
    not_earlier other k = ground arith

    all_after : (rows : List ReplyRow) → All (IsAfter row) rows
    all_after [] = tt
    all_after (other ∷ rows) = (inl fresh, all_after rows)
Move-IsOrdered d e (forget p final) h =
    All-delete p _ d.telegram_replies
      (All-map _ _ d.telegram_replies (λ row. All-delete p (IsAfter row) d.telegram_replies) h)
Move-IsOrdered d e (elsewhere e' same) h =
    subst (λ rows. All (λ row. All (IsAfter row) rows) rows) (sym same) h

-- The replies of a chat are attempted in their order: whatever the sessions of the program do, no reply
-- has ever been claimed while a reply of the same chat with a smaller id is open (pending or sending).
pub Steps-IsOrdered : {d e : Db} → IsOrdered d → Steps Move d e → IsOrdered e
Steps-IsOrdered h steps = Steps_keep IsOrdered Move-IsOrdered steps h
