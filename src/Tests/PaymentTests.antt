-- ===== src/Tests/PaymentTests.antt =====
-- Payments to post.
use bookkeeping.Base.{arith, ok, refl, ◌≡◌}
use bookkeeping.Int.{abs, neg, pos, ◌+ℤ◌, ◌-ℤ◌, ◌<ℤ◌}
use bookkeeping.Money.{half_even, quantize}
use bookkeeping.Posting.Amounts.{Posted}
use bookkeeping.Posting.Draft.{entry_draft, line_draft, side_sum, validate}
use bookkeeping.Posting.Effect.{on}
use bookkeeping.Posting.Lines.{append, build, post}
use bookkeeping.Posting.Payments.{
  Payment, create_payment_receipt_posting, create_payment_receipt_reversal_posting,
  payment_receipt_appends,
}
use bookkeeping.Posting.Reversal.{Cancels}
use bookkeeping.Posting.Reversal.OfPayments.{payment_reversal-Cancels}
use bookkeeping.Posting.Settlement.OfPayments.{create_payment_posting-Posted, of_receipt}
use bookkeeping.Tests.DocumentTests.{entry_in}

-- 250.125, which is rounded to 250.12.
abbrev payment : Payment
payment = record {
  tenant_id = 1;
  payment_id = 10;
  payment_number = "PAY-1";
  payment_date = 20_000;
  bank_or_cash_account_id = 41;
  party_account_id = 31;
  amount = pos 2_501_250;
}

payment_positive : pos 0 <ℤ payment.amount
payment_positive = omega arith

payment_receipt_posts :
    create_payment_receipt_posting payment ≡ ok (entry_in (create_payment_receipt_posting payment))
unfolding create_payment_receipt_posting payment_receipt_appends post build append line_draft
    entry_draft validate side_sum quantize half_even abs neg ◌+ℤ◌ ◌-ℤ◌
payment_receipt_posts = refl

create_payment_posting-Posted_example :
    Posted
      (pos 0)
      (λ sel.
        on (sel payment.bank_or_cash_account_id) (quantize payment.amount)
        -ℤ on (sel payment.party_account_id) (quantize payment.amount))
      (create_payment_receipt_posting payment)
create_payment_posting-Posted_example =
    create_payment_posting-Posted of_receipt payment payment_positive

payment_reversal-Cancels_example :
    Cancels
      (entry_in (create_payment_receipt_posting payment))
      (create_payment_receipt_reversal_posting payment 20_001)
payment_reversal-Cancels_example =
    payment_reversal-Cancels of_receipt payment 20_001 _ payment_receipt_posts
