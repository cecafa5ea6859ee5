-- ===== src/Posting/Returns.antt =====
-- Sales and purchase returns (backend/src/domains/accounting/services.py).
use Prim.Native.String.{◌++◌ as concat}
use bookkeeping.Base.{List, Result, ℕ, ◌++◌, ◌∷◌}
use bookkeeping.Posting.Documents.{Document, total}
use bookkeeping.Posting.Draft.{JournalEntryDraft, LedgerError, credit, debit}
use bookkeeping.Posting.Lines.{
  Append, always, party_credited, party_credited_last, party_debited, post, tax_lines,
}

unfoldable pub sales_return_appends : Document → List Append
sales_return_appends p =
    always p.nominal_account_id p.subtotal debit (concat "Sales Return: " p.number)
    ∷ always p.party_account_id (total p) credit (concat "Sales Return: " p.number)
    ∷ (tax_lines debit "Output Reversal" p.taxes
        ++ party_credited (concat "Round-off: " p.number) p.round_off_account_id p.party_account_id
            p.round_off_amount)

unfoldable pub create_sales_return_posting : Document → Result LedgerError JournalEntryDraft
create_sales_return_posting p =
    post p.tenant_id p.date p.number (concat "Sales Return " p.number) "SALES_RETURN" p.document_id
      (sales_return_appends p)

unfoldable pub purchase_return_appends : Document → List Append
purchase_return_appends p =
    always p.party_account_id (total p) debit (concat "Purchase Return: " p.number)
    ∷ always p.nominal_account_id p.subtotal credit (concat "Purchase Return: " p.number)
    ∷ (tax_lines credit "Input Reversal" p.taxes
        ++ party_credited_last (concat "Round-off: " p.number) p.round_off_account_id
            p.party_account_id p.round_off_amount)

unfoldable pub create_purchase_return_posting : Document → Result LedgerError JournalEntryDraft
create_purchase_return_posting p =
    post p.tenant_id p.date p.number (concat "Purchase Return " p.number) "PURCHASE_RETURN"
      p.document_id (purchase_return_appends p)

unfoldable pub sales_return_reversal_appends : Document → List Append
sales_return_reversal_appends p =
    always p.party_account_id (total p) debit (concat "Sales Return Cancellation: " p.number)
    ∷ always p.nominal_account_id p.subtotal credit (concat "Sales Return Cancellation: " p.number)
    ∷ (tax_lines credit "Output Restoration" p.taxes
        ++ party_debited "Round-off Reversal" p.round_off_account_id p.party_account_id
            p.round_off_amount)

unfoldable pub create_sales_return_reversal_posting :
    Document → ℕ → Result LedgerError JournalEntryDraft
create_sales_return_reversal_posting p cancel_date =
    post p.tenant_id cancel_date (concat "REV-" p.number)
      (concat "Reversal of sales return " p.number) "SALES_RETURN_REVERSAL" p.document_id
      (sales_return_reversal_appends p)

unfoldable pub purchase_return_reversal_appends : Document → List Append
purchase_return_reversal_appends p =
    always p.nominal_account_id p.subtotal debit (concat "Purchase Return Cancellation: " p.number)
    ∷ always p.party_account_id (total p) credit (concat "Purchase Return Cancellation: " p.number)
    ∷ (tax_lines debit "Input Restoration" p.taxes
        ++ party_debited "Round-off Reversal" p.round_off_account_id p.party_account_id
            p.round_off_amount)

unfoldable pub create_purchase_return_reversal_posting :
    Document → ℕ → Result LedgerError JournalEntryDraft
create_purchase_return_reversal_posting p cancel_date =
    post p.tenant_id cancel_date (concat "REV-" p.number)
      (concat "Reversal of purchase return " p.number) "PURCHASE_RETURN_REVERSAL" p.document_id
      (purchase_return_reversal_appends p)
