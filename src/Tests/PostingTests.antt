-- ===== src/Tests/PostingTests.antt =====
-- Documents to post.
use bookkeeping.Base.{[], arith, false, none, ok, refl, some, ◌∷◌, ◌≡◌}
use bookkeeping.Int.{abs, neg, negsuc, pos, ◌+ℤ◌, ◌-ℤ◌}
use bookkeeping.Money.{half_even, quantize}
use bookkeeping.Posting.Amounts.{Posted, TaxesInPaise}
use bookkeeping.Posting.Draft.{
  JournalEntryDraft, credit, debit, entry_draft, line_draft, side_sum, validate,
}
use bookkeeping.Posting.Invoices.{
  Invoice, create_invoice_posting, create_invoice_reversal_posting, invoice_appends, receivable,
}
use bookkeeping.Posting.Lines.{
  Taxes, append, build, party_debited, post, round_off_lines, tax_lines, tax_total,
}
use bookkeeping.Posting.Reversal.{Cancels}
use bookkeeping.Posting.Reversal.OfInvoices.{invoice_reversal-Cancels}
use bookkeeping.Posting.Settlement.OfInvoices.{
  IsBillable, create_invoice_posting-Posted, invoice_effect, invoice_unposted,
}

abbrev pub sale_taxes : Taxes
sale_taxes = record {
  cgst_account_id = some 11;
  cgst_amount = pos 90_000;
  sgst_account_id = some 12;
  sgst_amount = pos 90_000;
  igst_account_id = none;
  igst_amount = pos 0;
  utgst_account_id = none;
  utgst_amount = pos 0;
  cess_account_id = none;
  cess_amount = pos 0;
}

-- 100.00 less 0.00, 9.00 of CGST and SGST each, and 0.50 of rounding.
abbrev sale : Invoice
sale = record {
  tenant_id = 1;
  invoice_id = 7;
  invoice_number = "INV-1";
  invoice_date = 20_000;
  customer_account_id = 2;
  sales_revenue_account_id = 3;
  subtotal = pos 1_000_000;
  discount_total = pos 0;
  shipping_charges = pos 0;
  taxes = sale_taxes;
  round_off_account_id = some 4;
  round_off_amount = negsuc 4_999;
  is_rcm = false;
  tds_account_id = some 5;
  tds_amount = pos 10_000;
  tcs_account_id = none;
  tcs_amount = pos 0;
}

pub sale_taxes-InPaise : TaxesInPaise sale_taxes
sale_taxes-InPaise = record {
  cgst = omega arith;
  sgst = omega arith;
  igst = omega arith;
  utgst = omega arith;
  cess = omega arith;
}

sale-IsBillable : IsBillable sale
unfolding receivable tax_total ◌+ℤ◌ ◌-ℤ◌
sale-IsBillable = record {
  subtotal = omega arith;
  discount = omega arith;
  shipping = omega arith;
  taxes = sale_taxes-InPaise;
  round_off = omega arith;
  tds = omega arith;
  tcs = omega arith;
  sold = omega arith;
  owed = omega arith;
}

create_invoice_posting-Posted_example :
    Posted (invoice_unposted sale) (invoice_effect sale) (create_invoice_posting sale)
create_invoice_posting-Posted_example = create_invoice_posting-Posted sale sale-IsBillable

-- The entry of the sale.
abbrev pub sale_entry : JournalEntryDraft
sale_entry = record {
  tenant_id = 1;
  entry_date = 20_000;
  reference_number = "INV-1";
  description = "Ledger posting for Sales invoice INV-1";
  source_type = "INVOICE";
  source_id = 7;
  lines =
      record {
        account_id = 5;
        amount = pos 10_000;
        direction = debit;
        narration = "TDS Withheld: INV-1";
      }
      ∷ record {
        account_id = 2;
        amount = pos 1_170_000;
        direction = debit;
        narration = "Receivable: INV-1";
      }
      ∷ record {
        account_id = 3;
        amount = pos 1_000_000;
        direction = credit;
        narration = "Sales Revenue: INV-1";
      }
      ∷ record {
        account_id = 11;
        amount = pos 90_000;
        direction = credit;
        narration = "CGST Output";
      }
      ∷ record {
        account_id = 12;
        amount = pos 90_000;
        direction = credit;
        narration = "SGST Output";
      }
      ∷ record {
        account_id = 4;
        amount = pos 5_000;
        direction = debit;
        narration = "Round-off: INV-1";
      }
      ∷ record {
        account_id = 2;
        amount = pos 5_000;
        direction = credit;
        narration = "Round-off: INV-1";
      }
      ∷ [];
}

sale_posts : create_invoice_posting sale ≡ ok sale_entry
unfolding create_invoice_posting invoice_appends tax_lines party_debited round_off_lines post build
    append line_draft entry_draft validate side_sum receivable tax_total quantize half_even abs neg
    ◌+ℤ◌ ◌-ℤ◌
sale_posts = refl

invoice_reversal-Cancels_example : Cancels sale_entry (create_invoice_reversal_posting sale 20_001)
invoice_reversal-Cancels_example = invoice_reversal-Cancels sale 20_001 sale_entry sale_posts
