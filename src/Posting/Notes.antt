-- ===== src/Posting/Notes.antt =====
-- Credit and debit notes (backend/src/domains/accounting/services.py).
use Prim.Native.String.{◌++◌ as concat}
use bookkeeping.Base.{List, Result, ℕ, ◌++◌, ◌∷◌}
use bookkeeping.Posting.Documents.{Document, total}
use bookkeeping.Posting.Draft.{JournalEntryDraft, LedgerError, credit, debit}
use bookkeeping.Posting.Lines.{Append, always, party_credited, party_debited, post, tax_lines}

unfoldable pub credit_note_appends : Document → List Append
credit_note_appends p =
    always p.nominal_account_id p.subtotal debit (concat "Credit Note: " p.number)
    ∷ always p.party_account_id (total p) credit (concat "Credit Note: " p.number)
    ∷ (tax_lines debit "Reversal" p.taxes
        ++ party_credited (concat "Round-off: " p.number) p.round_off_account_id p.party_account_id
            p.round_off_amount)

unfoldable pub create_credit_note_posting : Document → Result LedgerError JournalEntryDraft
create_credit_note_posting p =
    post p.tenant_id p.date p.number (concat "Credit Note " p.number) "CREDIT_NOTE" p.document_id
      (credit_note_appends p)

unfoldable pub debit_note_appends : Document → List Append
debit_note_appends p =
    always p.party_account_id (total p) debit (concat "Debit Note: " p.number)
    ∷ always p.nominal_account_id p.subtotal credit (concat "Debit Note: " p.number)
    ∷ (tax_lines credit "Adjustment" p.taxes
        ++ party_debited (concat "Round-off: " p.number) p.round_off_account_id p.party_account_id
            p.round_off_amount)

unfoldable pub create_debit_note_posting : Document → Result LedgerError JournalEntryDraft
create_debit_note_posting p =
    post p.tenant_id p.date p.number (concat "Debit Note " p.number) "DEBIT_NOTE" p.document_id
      (debit_note_appends p)

unfoldable pub credit_note_reversal_appends : Document → List Append
credit_note_reversal_appends p =
    always p.party_account_id (total p) debit (concat "Credit Note Cancellation: " p.number)
    ∷ always p.nominal_account_id p.subtotal credit (concat "Credit Note Cancellation: " p.number)
    ∷ (tax_lines credit "Reversal" p.taxes
        ++ party_debited (concat "Round-off Reversal: " p.number) p.round_off_account_id
            p.party_account_id p.round_off_amount)

unfoldable pub create_credit_note_reversal_posting :
    Document → ℕ → Result LedgerError JournalEntryDraft
create_credit_note_reversal_posting p cancel_date =
    post p.tenant_id cancel_date (concat "REV-" p.number)
      (concat "Reversal of credit note " p.number) "CREDIT_NOTE_REVERSAL" p.document_id
      (credit_note_reversal_appends p)

unfoldable pub debit_note_reversal_appends : Document → List Append
debit_note_reversal_appends p =
    always p.nominal_account_id p.subtotal debit (concat "Debit Note Cancellation: " p.number)
    ∷ always p.party_account_id (total p) credit (concat "Debit Note Cancellation: " p.number)
    ∷ (tax_lines debit "Reversal" p.taxes
        ++ party_credited (concat "Round-off Reversal: " p.number) p.round_off_account_id
            p.party_account_id p.round_off_amount)

unfoldable pub create_debit_note_reversal_posting :
    Document → ℕ → Result LedgerError JournalEntryDraft
create_debit_note_reversal_posting p cancel_date =
    post p.tenant_id cancel_date (concat "REV-" p.number)
      (concat "Reversal of debit note " p.number) "DEBIT_NOTE_REVERSAL" p.document_id
      (debit_note_reversal_appends p)
