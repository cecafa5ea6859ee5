-- ===== src/AutoPost/Documents.antt =====
-- `auto_post_invoice` and `auto_post_bill` (backend/src/domains/accounting/auto_post.py).
use text.Mathlib.Text.{◌==◌ as str_eq}
use bookkeeping.Accounts.Resolver.{Contact, Texts}
use bookkeeping.AutoPost.Resolution.{
  DocumentAccounts, PostError, TaxAccounts, bill_accounts, check_no_existing_posting, committing,
  duplicate_bill_number, invoice_accounts, moving, posting, raising, resolving,
}
use bookkeeping.AutoPost.Stock.{
  DocumentLine, Inventory, Reference, flush_stock, issue_lines, move_stock, new_session,
  receive_lines,
}
use bookkeeping.Base.{
  Bool, List, Option, Result, String, [], false, if◌then◌else◌, none, not, ok, raise_if, some, ℕ,
  ◌&&◌, ◌==◌, ◌>>=◌, ◌>>◌, ◌∷◌,
}
use bookkeeping.Int.{ltb_ℤ, pos, ℤ, ◌+ℤ◌}
use bookkeeping.Ledger.Commit.{PostingContext, commit_ledger_draft}
use bookkeeping.Ledger.Tables.{Ledger}
use bookkeeping.Posting.Bills.{Bill, create_bill_posting}
use bookkeeping.Posting.Effect.{moved}
use bookkeeping.Posting.Invoices.{Invoice, create_invoice_posting}
use bookkeeping.Posting.Lines.{Taxes, tax_total}

pub data DocumentStatus : Type 0 where
  document_draft document_posted document_partially_paid document_paid : DocumentStatus
  document_cancelled : DocumentStatus

-- The columns of an invoice or a bill that are read or set. An amount that is null is zero.
pub record DocumentRow : Type 0 where
  pub id : ℕ
  pub tenant_id : ℕ
  pub contact_id : ℕ
  -- `invoice_number` or `bill_number`
  pub number : String
  pub issue_date : ℕ
  pub subtotal : ℤ
  pub discount_total : ℤ
  pub shipping_charges : ℤ
  pub cgst_amount : ℤ
  pub sgst_amount : ℤ
  pub igst_amount : ℤ
  pub utgst_amount : ℤ
  pub cess_amount : ℤ
  pub round_off : ℤ
  pub tds_amount : ℤ
  pub tcs_amount : ℤ
  -- of an invoice
  pub is_rcm : Bool
  -- of a bill
  pub itc_eligible : Bool
  pub lines : List DocumentLine
  pub status : DocumentStatus
  pub amount_paid : ℤ
  pub deleted : Bool

pub record Store : Type 0 where
  pub ledger : Ledger
  pub contacts : List Contact
  pub bills : List DocumentRow
  pub inventory : Inventory

abbrev pub row_taxes : DocumentRow → TaxAccounts → Taxes
row_taxes d t = record {
  cgst_account_id = some t.cgst;
  cgst_amount = d.cgst_amount;
  sgst_account_id = some t.sgst;
  sgst_amount = d.sgst_amount;
  igst_account_id = some t.igst;
  igst_amount = d.igst_amount;
  utgst_account_id = some t.utgst;
  utgst_amount = d.utgst_amount;
  cess_account_id = some t.cess;
  cess_amount = d.cess_amount;
}

-- The arguments of `create_invoice_posting`.
unfoldable pub invoice_arguments : ℕ → DocumentRow → DocumentAccounts → Invoice
invoice_arguments tenant d accounts = record {
  tenant_id = tenant;
  invoice_id = d.id;
  invoice_number = d.number;
  invoice_date = d.issue_date;
  customer_account_id = accounts.party;
  sales_revenue_account_id = accounts.subject;
  subtotal = d.subtotal;
  discount_total = d.discount_total;
  shipping_charges = d.shipping_charges;
  taxes = row_taxes d accounts.tax;
  round_off_account_id = some accounts.tax.round_off;
  round_off_amount = d.round_off;
  is_rcm = d.is_rcm;
  tds_account_id = accounts.tds;
  tds_amount = d.tds_amount;
  tcs_account_id = accounts.tcs;
  tcs_amount = d.tcs_amount;
}

abbrev pub no_taxes : TaxAccounts → Taxes
no_taxes t = record {
  cgst_account_id = some t.cgst;
  cgst_amount = pos 0;
  sgst_account_id = some t.sgst;
  sgst_amount = pos 0;
  igst_account_id = some t.igst;
  igst_amount = pos 0;
  utgst_account_id = some t.utgst;
  utgst_amount = pos 0;
  cess_account_id = some t.cess;
  cess_amount = pos 0;
}

-- The arguments of `create_bill_posting`: tax that gives no input credit is part of the expense.
unfoldable pub bill_arguments : ℕ → DocumentRow → DocumentAccounts → Bill
bill_arguments tenant d accounts = record {
  tenant_id = tenant;
  bill_id = d.id;
  bill_number = d.number;
  bill_date = d.issue_date;
  vendor_account_id = accounts.party;
  purchase_expense_account_id = accounts.subject;
  subtotal =
      if d.itc_eligible then d.subtotal else d.subtotal +ℤ tax_total (row_taxes d accounts.tax);
  discount_total = d.discount_total;
  shipping_charges = d.shipping_charges;
  taxes = if d.itc_eligible then row_taxes d accounts.tax else no_taxes accounts.tax;
  round_off_account_id = some accounts.tax.round_off;
  round_off_amount = d.round_off;
  tds_account_id = accounts.tds;
  tds_amount = d.tds_amount;
}

abbrev pub as_posted : DocumentRow → DocumentRow
as_posted d = record d { status = document_posted; amount_paid = pos 0 }

abbrev pub reference_to : ℕ → String → DocumentRow → ℕ → Reference
reference_to tenant reference_type d now = record {
  tenant = tenant;
  reference_type = reference_type;
  reference_id = d.id;
  now = now;
}

unfoldable pub auto_post_invoice :
    Texts
    → PostingContext
    → ℕ
    → DocumentRow
    → Bool
    → Bool
    → Store
    → Result PostError (DocumentRow × Store)
auto_post_invoice texts ctx tenant d allow_negative_stock move_stock db = do
  check_no_existing_posting tenant "INVOICE" d.id db.ledger.entries
  found ← raising resolving (
      invoice_accounts texts tenant db.contacts d.contact_id (ltb_ℤ (pos 0) d.tds_amount)
        (ltb_ℤ (pos 0) d.tcs_amount) db.ledger.accounts)
  draft ← raising posting (create_invoice_posting (invoice_arguments tenant d found.0))
  committed ←
      raising committing
        (commit_ledger_draft ctx tenant draft none (record db.ledger { accounts = found.1 }))
  moved ← raising moving (
      issue_lines allow_negative_stock (reference_to tenant "INVOICE" d ctx.now)
        (if move_stock then d.lines else []) (new_session db.inventory))
  ok (as_posted d, record db { ledger = committed.1; inventory = flush_stock tenant moved })

-- `query(Bill).filter(...).first()`
abbrev pub is_same_bill : ℕ → DocumentRow → DocumentRow → Bool
is_same_bill tenant d b =
    b.tenant_id == tenant
    && b.contact_id == d.contact_id
    && str_eq b.number d.number
    && not b.deleted

unfoldable pub first_bill : (DocumentRow → Bool) → List DocumentRow → Option DocumentRow
first_bill test [] = none
first_bill test (b ∷ bs) = if test b then some b else first_bill test bs

-- `existing and existing.id != bill.id`
abbrev pub is_another : DocumentRow → Option DocumentRow → Bool
is_another d none = false
is_another d (some b) = not (b.id == d.id)

unfoldable pub auto_post_bill :
    Texts → PostingContext → ℕ → DocumentRow → Store → Result PostError (DocumentRow × Store)
unfolding first_bill
auto_post_bill texts ctx tenant d db = do
  check_no_existing_posting tenant "BILL" d.id db.ledger.entries
  raise_if (is_another d (first_bill (is_same_bill tenant d) db.bills)) duplicate_bill_number
  found ← raising resolving (
      bill_accounts texts tenant db.contacts d.contact_id (ltb_ℤ (pos 0) d.tds_amount)
        db.ledger.accounts)
  draft ← raising posting (create_bill_posting (bill_arguments tenant d found.0))
  committed ←
      raising committing
        (commit_ledger_draft ctx tenant draft none (record db.ledger { accounts = found.1 }))
  ok (
    as_posted d,
    record db {
      ledger = committed.1;
      inventory =
          flush_stock tenant (
            receive_lines (reference_to tenant "BILL" d ctx.now) d.lines
              (new_session db.inventory));
    },
  )
