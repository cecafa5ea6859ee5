-- ===== src/Posting/Payments.antt =====
-- Customer receipts and vendor payments (backend/src/domains/accounting/services.py).
use Prim.Native.String.{◌++◌ as concat}
use bookkeeping.Base.{List, Result, String, [], ℕ, ◌∷◌}
use bookkeeping.Int.{ℤ}
use bookkeeping.Posting.Draft.{JournalEntryDraft, LedgerError, credit, debit}
use bookkeeping.Posting.Lines.{Append, always, post}

-- `party_account_id` is the customer's account of a receipt, the vendor's of a payment out.
pub record Payment : Type 0 where
  pub tenant_id : ℕ
  pub payment_id : ℕ
  pub payment_number : String
  pub payment_date : ℕ
  pub bank_or_cash_account_id : ℕ
  pub party_account_id : ℕ
  pub amount : ℤ

unfoldable pub payment_receipt_appends : Payment → List Append
payment_receipt_appends p =
    always p.bank_or_cash_account_id p.amount debit (concat "Payment received: " p.payment_number)
    ∷ always p.party_account_id p.amount credit (concat "Payment received: " p.payment_number)
    ∷ []

unfoldable pub create_payment_receipt_posting : Payment → Result LedgerError JournalEntryDraft
create_payment_receipt_posting p =
    post p.tenant_id p.payment_date p.payment_number (concat "Payment receipt " p.payment_number)
      "PAYMENT" p.payment_id (payment_receipt_appends p)

unfoldable pub payment_out_appends : Payment → List Append
payment_out_appends p =
    always p.party_account_id p.amount debit (concat "Payment made: " p.payment_number)
    ∷ always p.bank_or_cash_account_id p.amount credit (concat "Payment made: " p.payment_number)
    ∷ []

unfoldable pub create_payment_out_posting : Payment → Result LedgerError JournalEntryDraft
create_payment_out_posting p =
    post p.tenant_id p.payment_date p.payment_number (concat "Vendor payment " p.payment_number)
      "PAYMENT" p.payment_id (payment_out_appends p)

unfoldable pub payment_receipt_reversal_appends : Payment → List Append
payment_receipt_reversal_appends p =
    always p.party_account_id p.amount debit (concat "Payment receipt reversal: " p.payment_number)
    ∷ always p.bank_or_cash_account_id p.amount credit
        (concat "Payment receipt reversal: " p.payment_number)
    ∷ []

unfoldable pub create_payment_receipt_reversal_posting :
    Payment → ℕ → Result LedgerError JournalEntryDraft
create_payment_receipt_reversal_posting p cancel_date =
    post p.tenant_id cancel_date (concat "REV-" p.payment_number)
      (concat "Reversal of payment receipt " p.payment_number) "PAYMENT_REVERSAL" p.payment_id
      (payment_receipt_reversal_appends p)

unfoldable pub payment_out_reversal_appends : Payment → List Append
payment_out_reversal_appends p =
    always p.bank_or_cash_account_id p.amount debit
      (concat "Vendor payment reversal: " p.payment_number)
    ∷ always p.party_account_id p.amount credit
        (concat "Vendor payment reversal: " p.payment_number)
    ∷ []

unfoldable pub create_payment_out_reversal_posting :
    Payment → ℕ → Result LedgerError JournalEntryDraft
create_payment_out_reversal_posting p cancel_date =
    post p.tenant_id cancel_date (concat "REV-" p.payment_number)
      (concat "Reversal of vendor payment " p.payment_number) "PAYMENT_REVERSAL" p.payment_id
      (payment_out_reversal_appends p)
