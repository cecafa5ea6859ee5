-- ===== src/Posting/Lines.antt =====
-- The statements `lines.append(JournalLineDraft(...))` of the posting functions in
-- backend/src/domains/accounting/services.py. A posting function gives the appends that it makes,
-- in order; `build` runs them, and the first line that is refused ends the call.
use Prim.Native.String.{◌++◌ as concat}
use bookkeeping.Base.{
  List, Option, Result, String, [], if◌then◌else◌, none, ok, some, ℕ, ◌++◌, ◌>>=◌, ◌∷◌,
}
use bookkeeping.Int.{abs, eqb_ℤ, ltb_ℤ, pos, ℤ, ◌+ℤ◌}
use bookkeeping.Posting.Draft.{
  Direction, JournalEntryDraft, JournalLineDraft, LedgerError, credit, debit, entry_draft,
  line_draft,
}

pub data Append : Type 0 where
  -- `lines.append(JournalLineDraft(account, amount, direction, narration))`
  always : ℕ → ℤ → Direction → String → Append
  -- `if amount > 0 and account: lines.append(...)`
  charged : Option ℕ → ℤ → Direction → String → Append
  -- `if amount > 0: lines.append(...)`
  positive : ℕ → ℤ → Direction → String → Append

unfoldable pub append : Append → Result LedgerError (List JournalLineDraft)
append (always a x d n) = do l ← line_draft a x d n; ok (l ∷ [])
append (positive a x d n) =
    if ltb_ℤ (pos 0) x then (do l ← line_draft a x d n; ok (l ∷ [])) else ok []
append (charged none x d n) = ok []
append (charged (some a) x d n) =
    if ltb_ℤ (pos 0) x then (do l ← line_draft a x d n; ok (l ∷ [])) else ok []

unfoldable pub build : List Append → Result LedgerError (List JournalLineDraft)
build [] = ok []
build (s ∷ ss) = do added ← append s; rest ← build ss; ok (added ++ rest)

-- The tax parameters that the posting functions share.
pub record Taxes : Type 0 where
  pub cgst_account_id : Option ℕ
  pub cgst_amount : ℤ
  pub sgst_account_id : Option ℕ
  pub sgst_amount : ℤ
  pub igst_account_id : Option ℕ
  pub igst_amount : ℤ
  pub utgst_account_id : Option ℕ
  pub utgst_amount : ℤ
  pub cess_account_id : Option ℕ
  pub cess_amount : ℤ

unfoldable pub tax_total : Taxes → ℤ
tax_total t = t.cgst_amount +ℤ t.sgst_amount +ℤ t.igst_amount +ℤ t.utgst_amount +ℤ t.cess_amount

-- The five conditional tax lines, which end every label alike.
unfoldable pub tax_lines : Direction → String → Taxes → List Append
tax_lines d label t =
    charged t.cgst_account_id t.cgst_amount d (concat "CGST " label)
    ∷ charged t.sgst_account_id t.sgst_amount d (concat "SGST " label)
    ∷ charged t.igst_account_id t.igst_amount d (concat "IGST " label)
    ∷ charged t.utgst_account_id t.utgst_amount d (concat "UTGST " label)
    ∷ charged t.cess_account_id t.cess_amount d (concat "Cess " label)
    ∷ []

-- `JournalLineDraft(first, abs(round_off_amount), …)`, then the same for `second`.
abbrev pub exchange : ℤ → String → ℕ → Direction → ℕ → Direction → List Append
exchange x n a d b e = always a (abs x) d n ∷ always b (abs x) e n ∷ []

-- `if round_off_amount != 0 and round_off_account_id:` with one pair of lines where the amount is
-- positive and another where it is negative.
unfoldable pub round_off_lines : Option ℕ → ℤ → (ℕ → List Append) → (ℕ → List Append) → List Append
round_off_lines none x up down = []
round_off_lines (some r) x up down =
    if eqb_ℤ x (pos 0) then [] else if ltb_ℤ (pos 0) x then up r else down r

-- The three pairs of branches that occur, for the party's account `c`: a positive amount debits the
-- party, credits it, or credits it after the round-off account is debited.
unfoldable pub party_debited : String → Option ℕ → ℕ → ℤ → List Append
unfolding round_off_lines
party_debited n o c x =
    round_off_lines o x (λ r. exchange x n c debit r credit) (λ r. exchange x n r debit c credit)

unfoldable pub party_credited : String → Option ℕ → ℕ → ℤ → List Append
unfolding round_off_lines
party_credited n o c x =
    round_off_lines o x (λ r. exchange x n c credit r debit) (λ r. exchange x n r credit c debit)

unfoldable pub party_credited_last : String → Option ℕ → ℕ → ℤ → List Append
unfolding round_off_lines
party_credited_last n o c x =
    round_off_lines o x (λ r. exchange x n r debit c credit) (λ r. exchange x n c debit r credit)

-- The end of every posting function.
unfoldable pub post :
    ℕ → ℕ → String → String → String → ℕ → List Append → Result LedgerError JournalEntryDraft
post tenant date reference description source_type source appends = do
  lines ← build appends
  entry_draft tenant date reference description source_type source lines
