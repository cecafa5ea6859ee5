-- ===== src/Posting/Settlement/OfNotes.antt =====
-- The notes and returns, by their kind.
use bookkeeping.Base.{Bool, Result, ℕ}
use bookkeeping.Int.{neg, ℤ, ◌+ℤ◌, ◌-ℤ◌}
use bookkeeping.Posting.Amounts.{Posted, unposted_taxes}
use bookkeeping.Posting.Documents.{Document}
use bookkeeping.Posting.Draft.{JournalEntryDraft, LedgerError}
use bookkeeping.Posting.Notes.{create_credit_note_posting, create_debit_note_posting}
use bookkeeping.Posting.Returns.{create_purchase_return_posting, create_sales_return_posting}
use bookkeeping.Posting.Settlement.OfDocuments.{
  IsPostable, create_credit_note_posting-Posted, create_debit_note_posting-Posted,
  create_purchase_return_posting-Posted, create_sales_return_posting-Posted, party_debit, rounded,
}

pub data NoteKind : Type 0 where
  of_credit_note of_debit_note of_sales_return of_purchase_return : NoteKind

abbrev pub note_posting : NoteKind → Document → Result LedgerError JournalEntryDraft
note_posting of_credit_note = create_credit_note_posting
note_posting of_debit_note = create_debit_note_posting
note_posting of_sales_return = create_sales_return_posting
note_posting of_purchase_return = create_purchase_return_posting

-- The taxes that no account takes, by the side of the other lines.
abbrev pub note_unposted : NoteKind → Document → ℤ
note_unposted of_credit_note p = neg (unposted_taxes p.taxes)
note_unposted of_debit_note p = unposted_taxes p.taxes
note_unposted of_sales_return p = neg (unposted_taxes p.taxes)
note_unposted of_purchase_return p = unposted_taxes p.taxes

-- A credit note and a sales return credit the party, the other two debit it; of a purchase return alone
-- the rounding goes against the total.
abbrev pub note_effect : NoteKind → Document → (ℕ → Bool) → ℤ
note_effect of_credit_note p sel = neg (party_debit p sel +ℤ rounded p sel)
note_effect of_debit_note p sel = party_debit p sel +ℤ rounded p sel
note_effect of_sales_return p sel = neg (party_debit p sel +ℤ rounded p sel)
note_effect of_purchase_return p sel = party_debit p sel -ℤ rounded p sel

-- A note or return in whole paise is posted exactly where no tax amount is left without an account; else
-- it is refused as out of balance. A credit note and a sales return credit the party with the total and
-- the rounding difference and debit the other account and the taxes; a debit note does the opposite; a
-- purchase return debits the party with the total less the rounding difference. Nothing else is moved.
pub note_posting-Posted :
    (k : NoteKind) (p : Document)
    → IsPostable p
    → Posted (note_unposted k p) (λ sel. note_effect k p sel) (note_posting k p)
note_posting-Posted of_credit_note = create_credit_note_posting-Posted
note_posting-Posted of_debit_note = create_debit_note_posting-Posted
note_posting-Posted of_sales_return = create_sales_return_posting-Posted
note_posting-Posted of_purchase_return = create_purchase_return_posting-Posted
