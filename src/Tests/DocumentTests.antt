-- ===== src/Tests/DocumentTests.antt =====
-- Bills, expenses, notes and returns to post.
use bookkeeping.Base.{Result, arith, err, ok, refl, some, ◌≡◌}
use bookkeeping.Int.{abs, neg, pos, ◌+ℤ◌, ◌-ℤ◌}
use bookkeeping.Money.{half_even, quantize}
use bookkeeping.Posting.Amounts.{Posted, unposted_taxes}
use bookkeeping.Posting.Bills.{
  Bill, bill_appends, create_bill_posting, create_bill_reversal_posting, vendor_payable,
}
use bookkeeping.Posting.Documents.{
  Document, create_expense_posting, create_expense_reversal_posting, expense_appends, total,
}
use bookkeeping.Posting.Draft.{
  JournalEntryDraft, LedgerError, entry_draft, line_draft, side_sum, validate,
}
use bookkeeping.Posting.Lines.{
  append, build, party_credited, party_credited_last, party_debited, post, round_off_lines,
  tax_lines, tax_total,
}
use bookkeeping.Posting.Notes.{
  create_credit_note_posting, create_credit_note_reversal_posting, credit_note_appends,
}
use bookkeeping.Posting.Returns.{create_purchase_return_posting}
use bookkeeping.Posting.Reversal.{Cancels, Reverses}
use bookkeeping.Posting.Reversal.OfBills.{bill_residue, bill_reversal_residue}
use bookkeeping.Posting.Reversal.OfDocuments.{
  expense_residue, expense_reversal_residue, note_reversal-Cancels,
}
use bookkeeping.Posting.Settlement.OfBills.{
  IsPayable, bill_effect, bill_unposted, create_bill_posting-Posted,
}
use bookkeeping.Posting.Settlement.OfDocuments.{
  IsPostable, create_expense_posting-Posted, party_debit, rounded,
}
use bookkeeping.Posting.Settlement.OfNotes.{note_posting-Posted, of_credit_note, of_purchase_return}
use bookkeeping.Tests.PostingTests.{sale_entry, sale_taxes, sale_taxes-InPaise}

abbrev pub entry_in : Result LedgerError JournalEntryDraft → JournalEntryDraft
entry_in (ok e) = e
entry_in (err _) = sale_entry

-- 100.00, 9.00 of CGST and SGST each, 12.00 of freight, and 0.50 of rounding.
abbrev purchase : Bill
purchase = record {
  tenant_id = 1;
  bill_id = 8;
  bill_number = "BILL-1";
  bill_date = 20_000;
  vendor_account_id = 21;
  purchase_expense_account_id = 22;
  subtotal = pos 1_000_000;
  discount_total = pos 50_000;
  shipping_charges = pos 120_000;
  taxes = sale_taxes;
  round_off_account_id = some 4;
  round_off_amount = pos 5_000;
  tds_account_id = some 5;
  tds_amount = pos 10_000;
}

purchase-IsPayable : IsPayable purchase
unfolding vendor_payable tax_total ◌+ℤ◌ ◌-ℤ◌
purchase-IsPayable = record {
  subtotal = omega arith;
  discount = omega arith;
  shipping = omega arith;
  taxes = sale_taxes-InPaise;
  round_off = omega arith;
  tds = omega arith;
  bought = omega arith;
  owed = omega arith;
}

create_bill_posting-Posted_example :
    Posted (bill_unposted purchase) (bill_effect purchase) (create_bill_posting purchase)
create_bill_posting-Posted_example = create_bill_posting-Posted purchase purchase-IsPayable

purchase_posts : create_bill_posting purchase ≡ ok (entry_in (create_bill_posting purchase))
unfolding create_bill_posting bill_appends vendor_payable party_credited_last party_credited
    tax_lines round_off_lines post build append line_draft entry_draft validate side_sum tax_total
    quantize half_even abs neg ◌+ℤ◌ ◌-ℤ◌
purchase_posts = refl

bill_reversal_residue_example :
    Reverses
      (bill_residue purchase)
      (entry_in (create_bill_posting purchase))
      (create_bill_reversal_posting purchase 20_001)
bill_reversal_residue_example = bill_reversal_residue purchase 20_001 _ purchase_posts

-- 50.00 with 9.00 of CGST and SGST each, rounded up by 0.25.
abbrev document : Document
document = record {
  tenant_id = 1;
  document_id = 9;
  number = "DOC-1";
  date = 20_000;
  party_account_id = 31;
  nominal_account_id = 32;
  subtotal = pos 500_000;
  taxes = sale_taxes;
  round_off_account_id = some 4;
  round_off_amount = pos 2_500;
}

document-IsPostable : IsPostable document
unfolding total tax_total ◌+ℤ◌ ◌-ℤ◌
document-IsPostable = record {
  subtotal = omega arith;
  taxes = sale_taxes-InPaise;
  round_off = omega arith;
  positive_subtotal = omega arith;
  positive_total = omega arith;
}

create_expense_posting-Posted_example :
    Posted
      (neg (unposted_taxes sale_taxes))
      (λ sel. neg (party_debit document sel +ℤ rounded document sel))
      (create_expense_posting document)
create_expense_posting-Posted_example = create_expense_posting-Posted document document-IsPostable

expense_posts : create_expense_posting document ≡ ok (entry_in (create_expense_posting document))
unfolding create_expense_posting expense_appends total party_debited party_credited
    party_credited_last tax_lines round_off_lines post build append line_draft entry_draft validate
    side_sum tax_total quantize half_even abs neg ◌+ℤ◌ ◌-ℤ◌
expense_posts = refl

expense_reversal_residue_example :
    Reverses
      (expense_residue document)
      (entry_in (create_expense_posting document))
      (create_expense_reversal_posting document 20_001)
expense_reversal_residue_example = expense_reversal_residue document 20_001 _ expense_posts

credit_note_posts :
    create_credit_note_posting document ≡ ok (entry_in (create_credit_note_posting document))
unfolding create_credit_note_posting credit_note_appends total party_debited party_credited
    party_credited_last tax_lines round_off_lines post build append line_draft entry_draft validate
    side_sum tax_total quantize half_even abs neg ◌+ℤ◌ ◌-ℤ◌
credit_note_posts = refl

note_reversal-Cancels_example :
    Cancels
      (entry_in (create_credit_note_posting document))
      (create_credit_note_reversal_posting document 20_001)
note_reversal-Cancels_example =
    note_reversal-Cancels of_credit_note document 20_001 _ credit_note_posts

note_posting-Posted_example :
    Posted
      (unposted_taxes sale_taxes)
      (λ sel. party_debit document sel -ℤ rounded document sel)
      (create_purchase_return_posting document)
note_posting-Posted_example = note_posting-Posted of_purchase_return document document-IsPostable
