-- ===== src/Posting/Documents.antt =====
-- The posting functions over one party and one income or expense account: expenses, credit and
-- debit notes, sales and purchase returns, each with its reversal
-- (backend/src/domains/accounting/services.py).
use Prim.Native.String.{◌++◌ as concat}
use bookkeeping.Base.{List, Option, Result, String, ℕ, ◌++◌, ◌∷◌}
use bookkeeping.Int.{ℤ, ◌+ℤ◌}
use bookkeeping.Posting.Draft.{JournalEntryDraft, LedgerError, credit, debit}
use bookkeeping.Posting.Lines.{
  Append, Taxes, always, party_credited, party_credited_last, post, tax_lines, tax_total,
}

-- The parameters that these functions share. `party_account_id` is the customer's, the vendor's or
-- the cash account; `nominal_account_id` is the sales revenue, purchase expense or expense account;
-- `subtotal` is an expense's `amount`.
pub record Document : Type 0 where
  pub tenant_id : ℕ
  pub document_id : ℕ
  pub number : String
  pub date : ℕ
  pub party_account_id : ℕ
  pub nominal_account_id : ℕ
  pub subtotal : ℤ
  pub taxes : Taxes
  pub round_off_account_id : Option ℕ
  pub round_off_amount : ℤ

unfoldable pub total : Document → ℤ
total p = p.subtotal +ℤ tax_total p.taxes

unfoldable pub expense_appends : Document → List Append
expense_appends p =
    always p.nominal_account_id p.subtotal debit (concat "Expense: " p.number)
    ∷ (tax_lines debit "Input" p.taxes
        ++ (always p.party_account_id (total p) credit (concat "Cash/Bank: " p.number)
            ∷ party_credited_last (concat "Round-off: " p.number) p.round_off_account_id
                p.party_account_id p.round_off_amount))

unfoldable pub create_expense_posting : Document → Result LedgerError JournalEntryDraft
create_expense_posting p =
    post p.tenant_id p.date p.number (concat "Ledger posting for expense " p.number) "EXPENSE"
      p.document_id (expense_appends p)

unfoldable pub expense_reversal_appends : Document → List Append
expense_reversal_appends p =
    always p.party_account_id (total p) debit (concat "Expense reversal: " p.number)
    ∷ always p.nominal_account_id p.subtotal credit (concat "Expense reversal: " p.number)
    ∷ (tax_lines credit "Input Reversal" p.taxes
        ++ party_credited (concat "Round-off Reversal: " p.number) p.round_off_account_id
            p.party_account_id p.round_off_amount)

unfoldable pub create_expense_reversal_posting : Document → ℕ → Result LedgerError JournalEntryDraft
create_expense_reversal_posting p cancel_date =
    post p.tenant_id cancel_date (concat "REV-" p.number) (concat "Reversal of expense " p.number)
      "EXPENSE_REVERSAL" p.document_id (expense_reversal_appends p)
