-- ===== src/Posting/Reversal/OfPayments.antt =====
-- Reversing receipts and payments out.
use bookkeeping.Base.{arith, ok, refl, ℕ, ◌≡◌}
use bookkeeping.Int.{int_laws, pos}
use bookkeeping.Posting.Draft.{JournalEntryDraft}
use bookkeeping.Posting.Payments.{
  Payment, create_payment_out_posting, create_payment_out_reversal_posting,
  create_payment_receipt_posting, create_payment_receipt_reversal_posting, payment_out_appends,
  payment_out_reversal_appends, payment_receipt_appends, payment_receipt_reversal_appends,
}
use bookkeeping.Posting.Reversal.{Cancels, post_reversed}
use bookkeeping.Posting.Settlement.OfPayments.{
  PaymentKind, of_payment_out, of_receipt, payment_posting, payment_reversal_posting,
}

-- Where a customer's receipt was posted, its reversal goes through and undoes it on every account.
pub payment_receipt_reversal-Cancels :
    (p : Payment) (cancel_date : ℕ) (e : JournalEntryDraft)
    → create_payment_receipt_posting p ≡ ok e
    → Cancels e (create_payment_receipt_reversal_posting p cancel_date)
unfolding create_payment_receipt_posting create_payment_receipt_reversal_posting
    payment_receipt_appends payment_receipt_reversal_appends
payment_receipt_reversal-Cancels p cancel_date e h =
    post_reversed _ _ _ _ _ _ _ _ _ _ _ _ (payment_receipt_appends p)
      (payment_receipt_reversal_appends p) (λ _. pos 0) e h (λ r. r) (omega arith)
      (λ sel. omega int_laws) refl

-- Where a payment to a vendor was posted, its reversal goes through and undoes it on every account.
pub payment_out_reversal-Cancels :
    (p : Payment) (cancel_date : ℕ) (e : JournalEntryDraft)
    → create_payment_out_posting p ≡ ok e
    → Cancels e (create_payment_out_reversal_posting p cancel_date)
unfolding create_payment_out_posting create_payment_out_reversal_posting payment_out_appends
    payment_out_reversal_appends
payment_out_reversal-Cancels p cancel_date e h =
    post_reversed _ _ _ _ _ _ _ _ _ _ _ _ (payment_out_appends p) (payment_out_reversal_appends p)
      (λ _. pos 0) e h (λ r. r) (omega arith) (λ sel. omega int_laws) refl

-- Where a customer's receipt or a payment to a vendor was posted, its reversal goes through and undoes it
-- on every account.
pub payment_reversal-Cancels :
    (k : PaymentKind) (p : Payment) (cancel_date : ℕ) (e : JournalEntryDraft)
    → payment_posting k p ≡ ok e
    → Cancels e (payment_reversal_posting k p cancel_date)
payment_reversal-Cancels of_receipt = payment_receipt_reversal-Cancels
payment_reversal-Cancels of_payment_out = payment_out_reversal-Cancels
