-- ===== src/Posting/Invoices.antt =====
-- `create_invoice_posting` and `create_invoice_reversal_posting`
-- (backend/src/domains/accounting/services.py).
use Prim.Native.String.{◌++◌ as concat}
use bookkeeping.Base.{Bool, List, Option, Result, String, [], if◌then◌else◌, ℕ, ◌++◌, ◌∷◌}
use bookkeeping.Int.{pos, ℤ, ◌+ℤ◌, ◌-ℤ◌}
use bookkeeping.Posting.Draft.{JournalEntryDraft, LedgerError, credit, debit}
use bookkeeping.Posting.Lines.{
  Append, Taxes, always, charged, party_credited, party_debited, positive, post, tax_lines,
  tax_total,
}

pub record Invoice : Type 0 where
  pub tenant_id : ℕ
  pub invoice_id : ℕ
  pub invoice_number : String
  pub invoice_date : ℕ
  pub customer_account_id : ℕ
  pub sales_revenue_account_id : ℕ
  pub subtotal : ℤ
  pub discount_total : ℤ
  pub shipping_charges : ℤ
  pub taxes : Taxes
  pub round_off_account_id : Option ℕ
  pub round_off_amount : ℤ
  pub is_rcm : Bool
  pub tds_account_id : Option ℕ
  pub tds_amount : ℤ
  pub tcs_account_id : Option ℕ
  pub tcs_amount : ℤ

-- `invoice_total - tds_amount + tcs_amount`, where the total holds the tax unless the buyer
-- accounts for it (reverse charge).
unfoldable pub receivable : Invoice → ℤ
receivable p =
    let net_subtotal = p.subtotal -ℤ p.discount_total in
    let tax = if p.is_rcm then pos 0 else tax_total p.taxes in
    net_subtotal +ℤ p.shipping_charges +ℤ tax -ℤ p.tds_amount +ℤ p.tcs_amount

-- The lines before those of the rounding, without tax and with it.
abbrev pub rcm_lines : Invoice → List Append
rcm_lines p =
    let net_subtotal = p.subtotal -ℤ p.discount_total in
    let number = p.invoice_number in
    charged p.tds_account_id p.tds_amount debit (concat "TDS Withheld: " number)
    ∷ charged p.tcs_account_id p.tcs_amount credit (concat "TCS Collected: " number)
    ∷ always p.customer_account_id (receivable p) debit (concat "Receivable (RCM): " number)
    ∷ always p.sales_revenue_account_id net_subtotal credit (concat "Sales Revenue (RCM): " number)
    ∷ positive p.sales_revenue_account_id p.shipping_charges credit
        (concat "Shipping Income (RCM): " number)
    ∷ []

abbrev pub taxed_lines : Invoice → List Append
taxed_lines p =
    let net_subtotal = p.subtotal -ℤ p.discount_total in
    let number = p.invoice_number in
    charged p.tds_account_id p.tds_amount debit (concat "TDS Withheld: " number)
    ∷ charged p.tcs_account_id p.tcs_amount credit (concat "TCS Collected: " number)
    ∷ always p.customer_account_id (receivable p) debit (concat "Receivable: " number)
    ∷ always p.sales_revenue_account_id net_subtotal credit (concat "Sales Revenue: " number)
    ∷ positive p.sales_revenue_account_id p.shipping_charges credit
        (concat "Shipping Income: " number)
    ∷ tax_lines credit "Output" p.taxes

unfoldable pub invoice_appends : Invoice → List Append
invoice_appends p =
    (if p.is_rcm then rcm_lines p else taxed_lines p)
    ++ party_debited (concat "Round-off: " p.invoice_number) p.round_off_account_id
        p.customer_account_id p.round_off_amount

unfoldable pub create_invoice_posting : Invoice → Result LedgerError JournalEntryDraft
create_invoice_posting p =
    post p.tenant_id p.invoice_date p.invoice_number
      (concat "Ledger posting for Sales invoice " p.invoice_number) "INVOICE" p.invoice_id
      (invoice_appends p)

unfoldable pub invoice_reversal_appends : Invoice → List Append
invoice_reversal_appends p =
    let net_subtotal = p.subtotal -ℤ p.discount_total in
    let number = p.invoice_number in
    (charged p.tds_account_id p.tds_amount credit (concat "TDS Withheld Reversal: " number)
      ∷ charged p.tcs_account_id p.tcs_amount debit (concat "TCS Collected Reversal: " number)
      ∷ always p.sales_revenue_account_id net_subtotal debit (concat "Cancellation: " number)
      ∷ positive p.sales_revenue_account_id p.shipping_charges debit
          (concat "Shipping cancellation: " number)
      ∷ always p.customer_account_id (receivable p) credit (concat "Cancellation: " number)
      ∷ (if p.is_rcm then [] else tax_lines debit "Reversal" p.taxes))
    ++ party_credited (concat "Round-off Reversal: " number) p.round_off_account_id
        p.customer_account_id p.round_off_amount

-- The parameters are the posting's, with the date of the cancellation in place of the invoice's.
unfoldable pub create_invoice_reversal_posting : Invoice → ℕ → Result LedgerError JournalEntryDraft
create_invoice_reversal_posting p cancel_date =
    post p.tenant_id cancel_date (concat "REV-" p.invoice_number)
      (concat "Reversal of invoice " p.invoice_number) "INVOICE_REVERSAL" p.invoice_id
      (invoice_reversal_appends p)
