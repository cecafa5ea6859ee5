-- ===== src/Posting/Bills.antt =====
-- `create_bill_posting` and `create_bill_reversal_posting`
-- (backend/src/domains/accounting/services.py).
use Prim.Native.String.{◌++◌ as concat}
use bookkeeping.Base.{List, Option, Result, String, ℕ, ◌++◌, ◌∷◌}
use bookkeeping.Int.{ℤ, ◌+ℤ◌, ◌-ℤ◌}
use bookkeeping.Posting.Draft.{JournalEntryDraft, LedgerError, credit, debit}
use bookkeeping.Posting.Lines.{
  Append, Taxes, always, charged, party_credited, party_credited_last, positive, post, tax_lines,
  tax_total,
}

pub record Bill : Type 0 where
  pub tenant_id : ℕ
  pub bill_id : ℕ
  pub bill_number : String
  pub bill_date : ℕ
  pub vendor_account_id : ℕ
  pub purchase_expense_account_id : ℕ
  pub subtotal : ℤ
  pub discount_total : ℤ
  pub shipping_charges : ℤ
  pub taxes : Taxes
  pub round_off_account_id : Option ℕ
  pub round_off_amount : ℤ
  pub tds_account_id : Option ℕ
  pub tds_amount : ℤ

unfoldable pub vendor_payable : Bill → ℤ
vendor_payable p =
    let net_subtotal = p.subtotal -ℤ p.discount_total in
    net_subtotal +ℤ p.shipping_charges +ℤ tax_total p.taxes -ℤ p.tds_amount

-- The lines after those of the taxes.
abbrev pub payable_lines : Bill → List Append
payable_lines p =
    let number = p.bill_number in
    always p.vendor_account_id (vendor_payable p) credit (concat "Payable: Bill " number)
    ∷ charged p.tds_account_id p.tds_amount credit (concat "TDS Deducted: Bill " number)
    ∷ party_credited_last (concat "Round-off: " number) p.round_off_account_id p.vendor_account_id
        p.round_off_amount

unfoldable pub bill_appends : Bill → List Append
bill_appends p =
    let net_subtotal = p.subtotal -ℤ p.discount_total in
    let number = p.bill_number in
    always p.purchase_expense_account_id net_subtotal debit (concat "Expense: Bill " number)
    ∷ positive p.purchase_expense_account_id p.shipping_charges debit
        (concat "Freight/Shipping: Bill " number)
    ∷ (tax_lines debit "Input Tax" p.taxes ++ payable_lines p)

unfoldable pub create_bill_posting : Bill → Result LedgerError JournalEntryDraft
create_bill_posting p =
    post p.tenant_id p.bill_date p.bill_number
      (concat "Ledger posting for vendor bill " p.bill_number) "BILL" p.bill_id (bill_appends p)

unfoldable pub bill_reversal_appends : Bill → List Append
bill_reversal_appends p =
    let net_subtotal = p.subtotal -ℤ p.discount_total in
    let number = p.bill_number in
    always p.vendor_account_id (vendor_payable p) debit (concat "Reversal of vendor bill: " number)
    ∷ always p.purchase_expense_account_id net_subtotal credit
        (concat "Reversal of purchase expense: " number)
    ∷ positive p.purchase_expense_account_id p.shipping_charges credit
        (concat "Freight/Shipping reversal: " number)
    ∷ (tax_lines credit "Input Reversal" p.taxes
        ++ (charged p.tds_account_id p.tds_amount debit (concat "TDS Reversal: " number)
            ∷ party_credited (concat "Round-off Reversal: " number) p.round_off_account_id
                p.vendor_account_id p.round_off_amount))

unfoldable pub create_bill_reversal_posting : Bill → ℕ → Result LedgerError JournalEntryDraft
create_bill_reversal_posting p cancel_date =
    post p.tenant_id cancel_date (concat "REV-" p.bill_number)
      (concat "Reversal of vendor bill " p.bill_number) "BILL_REVERSAL" p.bill_id
      (bill_reversal_appends p)
