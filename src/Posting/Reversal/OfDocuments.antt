-- ===== src/Posting/Reversal/OfDocuments.antt =====
-- Cancelling expenses, credit and debit notes, and returns.
use bookkeeping.Base.{Bool, Result, arith, ok, refl, ℕ, ◌≡◌, ◌≤◌}
use bookkeeping.Int.{int_laws, neg, pos, ℤ, ◌+ℤ◌}
use bookkeeping.Posting.Documents.{
  Document, create_expense_posting, create_expense_reversal_posting, expense_appends,
  expense_reversal_appends,
}
use bookkeeping.Posting.Draft.{JournalEntryDraft, LedgerError, debit}
use bookkeeping.Posting.Effect.{dues, dues-append}
use bookkeeping.Posting.Lines.{tax_lines}
use bookkeeping.Posting.Notes.{
  create_credit_note_posting, create_credit_note_reversal_posting, create_debit_note_posting,
  create_debit_note_reversal_posting, credit_note_appends, credit_note_reversal_appends,
  debit_note_appends, debit_note_reversal_appends,
}
use bookkeeping.Posting.Outcome.{Ready, fixed_count}
use bookkeeping.Posting.Parts.{
  Ready-append, Ready-right, party_credited-Ready, party_credited-dues, party_credited_last-dues,
  party_debited-Ready, party_debited-dues, swing, swing-all_accounts, tax_lines-Ready,
  tax_lines-dues,
}
use bookkeeping.Posting.Returns.{
  create_purchase_return_posting, create_purchase_return_reversal_posting,
  create_sales_return_posting, create_sales_return_reversal_posting, purchase_return_appends,
  purchase_return_reversal_appends, sales_return_appends, sales_return_reversal_appends,
}
use bookkeeping.Posting.Reversal.{Cancels, Reverses, post_reversed}
use bookkeeping.Posting.Settlement.OfNotes.{
  NoteKind, note_posting, of_credit_note, of_debit_note, of_purchase_return, of_sales_return,
}

abbrev pub expense_residue : Document → (ℕ → Bool) → ℤ
expense_residue p sel =
    let taken = swing sel p.round_off_account_id p.party_account_id p.round_off_amount in
    neg (taken +ℤ taken)

expense_dues :
    (sel : ℕ → Bool) (p : Document)
    → dues sel (expense_appends p) +ℤ dues sel (expense_reversal_appends p) ≡ expense_residue p sel
unfolding expense_appends expense_reversal_appends
expense_dues sel p =
    simp (dues-append, party_credited_last-dues, party_credited-dues, tax_lines-dues)
      (omega int_laws)

expense-Ready : (p : Document) → Ready (expense_appends p) → Ready (expense_reversal_appends p)
unfolding expense_appends expense_reversal_appends
expense-Ready p h =
    let cash = Ready-right (tax_lines debit "Input" p.taxes) _ h.1 in
    (cash.0, (h.0, Ready-append _ _ (tax_lines-Ready _ _ _) (party_credited-Ready _ _ _ _)))

expense_lines : (p : Document) → 2 ≤ fixed_count (expense_reversal_appends p)
unfolding expense_reversal_appends
expense_lines p = omega arith

-- Where an expense was posted, its reversal goes through. On every account the two entries add up
-- to what the rounding difference puts there twice over: the reversal repeats the rounding lines.
pub expense_reversal_residue :
    (p : Document) (cancel_date : ℕ) (e : JournalEntryDraft)
    → create_expense_posting p ≡ ok e
    → Reverses (expense_residue p) e (create_expense_reversal_posting p cancel_date)
unfolding create_expense_posting create_expense_reversal_posting
expense_reversal_residue p cancel_date e h =
    post_reversed _ _ _ _ _ _ _ _ _ _ _ _ (expense_appends p) (expense_reversal_appends p)
      (expense_residue p) e h (expense-Ready p) (expense_lines p) (λ sel. expense_dues sel p)
      (rw (swing-all_accounts p.round_off_account_id p.party_account_id p.round_off_amount)
        (omega int_laws))

credit_note_dues :
    (sel : ℕ → Bool) (p : Document)
    → dues sel (credit_note_appends p) +ℤ dues sel (credit_note_reversal_appends p) ≡ pos 0
unfolding credit_note_appends credit_note_reversal_appends
credit_note_dues sel p =
    simp (dues-append, party_credited-dues, party_debited-dues, tax_lines-dues) (omega int_laws)

-- Where a credit note was posted, its reversal goes through and undoes it on every account.
pub credit_note_reversal-Cancels :
    (p : Document) (cancel_date : ℕ) (e : JournalEntryDraft)
    → create_credit_note_posting p ≡ ok e
    → Cancels e (create_credit_note_reversal_posting p cancel_date)
unfolding create_credit_note_posting create_credit_note_reversal_posting credit_note_appends
    credit_note_reversal_appends
credit_note_reversal-Cancels p cancel_date e h =
    post_reversed _ _ _ _ _ _ _ _ _ _ _ _ (credit_note_appends p) (credit_note_reversal_appends p)
      (λ _. pos 0) e h
      (λ r. (r.1.0, (r.0, Ready-append _ _ (tax_lines-Ready _ _ _) (party_debited-Ready _ _ _ _))))
      (omega arith) (λ sel. credit_note_dues sel p) refl

debit_note_dues :
    (sel : ℕ → Bool) (p : Document)
    → dues sel (debit_note_appends p) +ℤ dues sel (debit_note_reversal_appends p) ≡ pos 0
unfolding debit_note_appends debit_note_reversal_appends
debit_note_dues sel p =
    simp (dues-append, party_debited-dues, party_credited-dues, tax_lines-dues) (omega int_laws)

-- Where a debit note was posted, its reversal goes through and undoes it on every account.
pub debit_note_reversal-Cancels :
    (p : Document) (cancel_date : ℕ) (e : JournalEntryDraft)
    → create_debit_note_posting p ≡ ok e
    → Cancels e (create_debit_note_reversal_posting p cancel_date)
unfolding create_debit_note_posting create_debit_note_reversal_posting debit_note_appends
    debit_note_reversal_appends
debit_note_reversal-Cancels p cancel_date e h =
    post_reversed _ _ _ _ _ _ _ _ _ _ _ _ (debit_note_appends p) (debit_note_reversal_appends p)
      (λ _. pos 0) e h
      (λ r. (r.1.0, (r.0, Ready-append _ _ (tax_lines-Ready _ _ _) (party_credited-Ready _ _ _ _))))
      (omega arith) (λ sel. debit_note_dues sel p) refl

sales_return_dues :
    (sel : ℕ → Bool) (p : Document)
    → dues sel (sales_return_appends p) +ℤ dues sel (sales_return_reversal_appends p) ≡ pos 0
unfolding sales_return_appends sales_return_reversal_appends
sales_return_dues sel p =
    simp (dues-append, party_credited-dues, party_debited-dues, tax_lines-dues) (omega int_laws)

-- Where a sales return was posted, its reversal goes through and undoes it on every account.
pub sales_return_reversal-Cancels :
    (p : Document) (cancel_date : ℕ) (e : JournalEntryDraft)
    → create_sales_return_posting p ≡ ok e
    → Cancels e (create_sales_return_reversal_posting p cancel_date)
unfolding create_sales_return_posting create_sales_return_reversal_posting sales_return_appends
    sales_return_reversal_appends
sales_return_reversal-Cancels p cancel_date e h =
    post_reversed _ _ _ _ _ _ _ _ _ _ _ _ (sales_return_appends p) (sales_return_reversal_appends p)
      (λ _. pos 0) e h
      (λ r. (r.1.0, (r.0, Ready-append _ _ (tax_lines-Ready _ _ _) (party_debited-Ready _ _ _ _))))
      (omega arith) (λ sel. sales_return_dues sel p) refl

purchase_return_dues :
    (sel : ℕ → Bool) (p : Document)
    → dues sel (purchase_return_appends p) +ℤ dues sel (purchase_return_reversal_appends p) ≡ pos 0
unfolding purchase_return_appends purchase_return_reversal_appends
purchase_return_dues sel p =
    simp (dues-append, party_credited_last-dues, party_debited-dues, tax_lines-dues)
      (omega int_laws)

-- Where a purchase return was posted, its reversal goes through and undoes it on every account.
pub purchase_return_reversal-Cancels :
    (p : Document) (cancel_date : ℕ) (e : JournalEntryDraft)
    → create_purchase_return_posting p ≡ ok e
    → Cancels e (create_purchase_return_reversal_posting p cancel_date)
unfolding create_purchase_return_posting create_purchase_return_reversal_posting
    purchase_return_appends purchase_return_reversal_appends
purchase_return_reversal-Cancels p cancel_date e h =
    post_reversed _ _ _ _ _ _ _ _ _ _ _ _ (purchase_return_appends p)
      (purchase_return_reversal_appends p) (λ _. pos 0) e h
      (λ r. (r.1.0, (r.0, Ready-append _ _ (tax_lines-Ready _ _ _) (party_debited-Ready _ _ _ _))))
      (omega arith) (λ sel. purchase_return_dues sel p) refl

abbrev pub note_reversal_posting : NoteKind → Document → ℕ → Result LedgerError JournalEntryDraft
note_reversal_posting of_credit_note = create_credit_note_reversal_posting
note_reversal_posting of_debit_note = create_debit_note_reversal_posting
note_reversal_posting of_sales_return = create_sales_return_reversal_posting
note_reversal_posting of_purchase_return = create_purchase_return_reversal_posting

-- Where a credit note, a debit note, a sales return or a purchase return was posted, the reversal of its
-- kind goes through and undoes it on every account.
pub note_reversal-Cancels :
    (k : NoteKind) (p : Document) (cancel_date : ℕ) (e : JournalEntryDraft)
    → note_posting k p ≡ ok e
    → Cancels e (note_reversal_posting k p cancel_date)
note_reversal-Cancels of_credit_note = credit_note_reversal-Cancels
note_reversal-Cancels of_debit_note = debit_note_reversal-Cancels
note_reversal-Cancels of_sales_return = sales_return_reversal-Cancels
note_reversal-Cancels of_purchase_return = purchase_return_reversal-Cancels
