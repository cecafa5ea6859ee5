-- ===== src/Posting/Settlement/OfPayments.antt =====
-- Posting receipts and payments out.
use bookkeeping.Base.{Result, arith, ℕ}
use bookkeeping.Int.{int_laws, pos, ◌-ℤ◌, ◌<ℤ◌}
use bookkeeping.Money.{quantize}
use bookkeeping.Posting.Amounts.{Posted, Settles-Posted}
use bookkeeping.Posting.Draft.{JournalEntryDraft, LedgerError}
use bookkeeping.Posting.Effect.{fixed, on}
use bookkeeping.Posting.Outcome.{post-Settles}
use bookkeeping.Posting.Payments.{
  Payment, create_payment_out_posting, create_payment_out_reversal_posting,
  create_payment_receipt_posting, create_payment_receipt_reversal_posting, payment_out_appends,
  payment_receipt_appends,
}

-- A receipt of a positive amount is always posted: it debits the bank or cash
-- account with the amount to the nearest paisa and credits the customer with the same.
pub create_payment_receipt_posting-Posted :
    (p : Payment)
    → pos 0 <ℤ p.amount
    → Posted
        (pos 0)
        (λ sel.
          on (sel p.bank_or_cash_account_id) (quantize p.amount)
          -ℤ on (sel p.party_account_id) (quantize p.amount))
        (create_payment_receipt_posting p)
unfolding create_payment_receipt_posting payment_receipt_appends fixed
create_payment_receipt_posting-Posted p h =
    Settles-Posted (payment_receipt_appends p) _ _ (omega int_laws) (λ sel. omega int_laws) _
      (post-Settles _ _ _ _ _ _ (payment_receipt_appends p) (h, (h, tt)) (omega arith))

-- A payment of a positive amount to a vendor is always posted: it debits the vendor with the amount
-- to the nearest paisa and credits the bank or cash account with the same.
pub create_payment_out_posting-Posted :
    (p : Payment)
    → pos 0 <ℤ p.amount
    → Posted
        (pos 0)
        (λ sel.
          on (sel p.party_account_id) (quantize p.amount)
          -ℤ on (sel p.bank_or_cash_account_id) (quantize p.amount))
        (create_payment_out_posting p)
unfolding create_payment_out_posting payment_out_appends fixed
create_payment_out_posting-Posted p h =
    Settles-Posted (payment_out_appends p) _ _ (omega int_laws) (λ sel. omega int_laws) _
      (post-Settles _ _ _ _ _ _ (payment_out_appends p) (h, (h, tt)) (omega arith))

pub data PaymentKind : Type 0 where
  of_receipt of_payment_out : PaymentKind

abbrev pub payment_posting : PaymentKind → Payment → Result LedgerError JournalEntryDraft
payment_posting of_receipt = create_payment_receipt_posting
payment_posting of_payment_out = create_payment_out_posting

abbrev pub payment_reversal_posting :
    PaymentKind → Payment → ℕ → Result LedgerError JournalEntryDraft
payment_reversal_posting of_receipt = create_payment_receipt_reversal_posting
payment_reversal_posting of_payment_out = create_payment_out_reversal_posting

-- The account that is debited, and the one that is credited.
abbrev pub debited_account : PaymentKind → Payment → ℕ
debited_account of_receipt p = p.bank_or_cash_account_id
debited_account of_payment_out p = p.party_account_id

abbrev pub credited_account : PaymentKind → Payment → ℕ
credited_account of_receipt p = p.party_account_id
credited_account of_payment_out p = p.bank_or_cash_account_id

-- A receipt or a payment of a positive amount is always posted. A receipt debits the bank or cash account
-- and credits the customer, a payment debits the vendor and credits the bank or cash account, with the
-- amount to the nearest paisa.
pub create_payment_posting-Posted :
    (k : PaymentKind) (p : Payment)
    → pos 0 <ℤ p.amount
    → Posted
        (pos 0)
        (λ sel.
          on (sel (debited_account k p)) (quantize p.amount)
          -ℤ on (sel (credited_account k p)) (quantize p.amount))
        (payment_posting k p)
create_payment_posting-Posted of_receipt = create_payment_receipt_posting-Posted
create_payment_posting-Posted of_payment_out = create_payment_out_posting-Posted
