-- ===== src/Tests/AutoPostTests.antt =====
-- An invoice and a bill that are posted to an empty ledger.
use bookkeeping.Accounts.Again.{resolve_key_again}
use bookkeeping.Accounts.Resolver.{
  AccountKey, Contact, Texts, add_account, cached, customer, find_account, find_contact,
  found_or_added, new_account, resolve, resolve_contact_account, resolve_defined, resolve_key,
  resolve_standard, standard, vendor,
}
use bookkeeping.Accounts.ResolverLaws.{FoundAccount, resolve_key-FoundAccount}
use bookkeeping.Accounts.Standard.{definition_of, standard_accounts}
use bookkeeping.AutoPost.Documents.{
  DocumentRow, Store, as_posted, auto_post_bill, auto_post_invoice, bill_arguments, document_draft,
  first_bill, invoice_arguments, reference_to,
}
use bookkeeping.AutoPost.InStock.{InStock}
use bookkeeping.AutoPost.Kept.{
  auto_post_bill-IsSound, auto_post_invoice-IsSound, auto_post_invoice_again,
}
use bookkeeping.AutoPost.Notes.{
  NoteError, NoteRow, auto_post_credit_note, note_arguments, note_posted, post_note,
}
use bookkeeping.AutoPost.NotesKept.{auto_post_note-IsSound}
use bookkeeping.AutoPost.Resolution.{
  PostError, already_posted, bill_accounts, check_no_existing_posting, invoice_accounts,
  resolve_tax_accounts,
}
use bookkeeping.AutoPost.Sessions.{moved_quantity}
use bookkeeping.AutoPost.Stock.{
  DocumentLine, current_stock, default_warehouse, find_product, flush_stock, in_ten_thousandths,
  issue_goods, issue_lines, move_stock, moved_goods, receive_goods, receive_lines, stock_set,
}
use bookkeeping.AutoPost.Stocked.{
  StockMoved, auto_post_bill-StockMoved, auto_post_invoice-InStock, auto_post_invoice-StockMoved,
}
use bookkeeping.Base.{
  Bool, List, Result, [], ap, arith, codes, err, false, if◌then◌else◌, inl, none, ok, refl, some,
  suc, true, ℕ, ◌*◌, ◌+◌, ◌/◌, ◌==◌, ◌∷◌, ◌≡◌,
}
use bookkeeping.Int.{abs, int_laws, neg, negsuc, pos, ℤ, ◌+ℤ◌, ◌-ℤ◌, ◌≤ℤ◌}
use bookkeeping.Inventory.CarryForward.{Product}
use bookkeeping.Inventory.Warehouses.{
  chosen, first_usable, get_warehouse_stock, is_at, quantity_sum, resolve_default_warehouse_id,
  unset, usable_with_id,
}
use bookkeeping.Ledger.Commit.{
  PostingContext, actor_of, commit_ledger_draft, entry_of, flush_entry, flush_lines,
  update_account_balances,
}
use bookkeeping.Ledger.Reach.{IsSound}
use bookkeeping.Ledger.Tables.{Account, asset}
use bookkeeping.Money.{quantize}
use bookkeeping.Posting.Bills.{bill_appends, create_bill_posting, vendor_payable}
use bookkeeping.Posting.Documents.{total}
use bookkeeping.Posting.Draft.{entry_draft, line_draft, side_sum, validate}
use bookkeeping.Posting.Effect.{moved}
use bookkeeping.Posting.Invoices.{create_invoice_posting, invoice_appends, receivable}
use bookkeeping.Posting.Lines.{
  append, build, party_credited, party_credited_last, party_debited, post, round_off_lines,
  tax_lines, tax_total,
}
use bookkeeping.Posting.Notes.{create_credit_note_posting, credit_note_appends}

abbrev text_number : List ℕ → ℕ
text_number [] = 7
text_number (c ∷ cs) = c + 131 * text_number cs

abbrev numbered : AccountKey → ℕ → ℕ
numbered (standard s) tenant = text_number (codes s)
numbered (customer c) tenant = 100 + c
numbered (vendor c) tenant = 200 + c

abbrev numbers : Texts
numbers = record {
  account_uuid = numbered;
  uuid_text = λ n. "5";
  upper = λ s. s;
  sql_upper = λ s. s;
}

abbrev party_contact : Contact
party_contact = record { id = 5; tenant_id = 1; name = "Nut and Co"; deleted = false }

abbrev nut : Product
nut = record {
  id = 1;
  tenant_id = 1;
  name = "Nut";
  sku = none;
  is_goods = true;
  purchase_price = 10_000;
  opening_stock = pos 1_000;
  current_stock = pos 1_000;
  is_active = true;
}

abbrev two_nuts : DocumentLine
two_nuts = record { product_id = some 1; quantity = pos 20_000 }

abbrev sale_row : DocumentRow
sale_row = record {
  id = 9;
  tenant_id = 1;
  contact_id = 5;
  number = "INV-9";
  issue_date = 19_800;
  subtotal = pos 1_000_000;
  discount_total = pos 0;
  shipping_charges = pos 0;
  cgst_amount = pos 90_000;
  sgst_amount = pos 90_000;
  igst_amount = pos 0;
  utgst_amount = pos 0;
  cess_amount = pos 0;
  round_off = pos 0;
  tds_amount = pos 0;
  tcs_amount = pos 10_000;
  is_rcm = false;
  itc_eligible = true;
  lines = two_nuts ∷ [];
  status = document_draft;
  amount_paid = pos 0;
  deleted = false;
}

-- Rounds half a hundredth away from zero.
abbrev in_hundredths : ℤ → ℤ
in_hundredths (pos n) = pos ((n + 50) / 100)
in_hundredths (negsuc n) = neg (pos ((n + 51) / 100))

in_hundredths_exact : (x : ℤ) → in_hundredths (in_ten_thousandths x) ≡ x
in_hundredths_exact (pos n) = ap pos (omega arith)
in_hundredths_exact (negsuc n) =
    let whole : (n * 100 + 99 + 51) / 100 ≡ suc n = omega arith in rw whole (omega int_laws)

abbrev empty_store : Store
empty_store = record {
  ledger = record { accounts = []; entries = [] };
  contacts = party_contact ∷ [];
  bills = [];
  inventory = record {
    products = nut ∷ [];
    movements = [];
    branches = [];
    configured_warehouse = unset;
    stock_column = in_hundredths;
  };
}

abbrev at_noon : PostingContext
at_noon = record { session_actor = none; request_actor = some 77; channel = "api"; now = 1_000 }

abbrev store_of : Result PostError (DocumentRow × Store) → Store
store_of (ok r) = r.1
store_of (err _) = empty_store

abbrev after_sale : Store
after_sale = store_of (auto_post_invoice numbers at_noon 1 sale_row false true empty_store)

abbrev after_purchase : Store
after_purchase = store_of (auto_post_bill numbers at_noon 1 sale_row empty_store)

sale_posted :
    auto_post_invoice numbers at_noon 1 sale_row false true empty_store
    ≡ ok (as_posted sale_row, after_sale)
unfolding auto_post_invoice check_no_existing_posting invoice_accounts resolve resolve_key
    resolve_standard resolve_defined resolve_contact_account found_or_added find_account
    find_contact add_account cached resolve_tax_accounts definition_of standard_accounts
    create_invoice_posting invoice_arguments invoice_appends receivable tax_total tax_lines
    party_debited round_off_lines post build append line_draft entry_draft validate side_sum
    quantize commit_ledger_draft flush_entry flush_lines entry_of actor_of update_account_balances
    issue_lines issue_goods moved_goods find_product resolve_default_warehouse_id first_usable
    get_warehouse_stock current_stock stock_set abs ◌+ℤ◌ ◌-ℤ◌
sale_posted = refl

purchase_posted :
    auto_post_bill numbers at_noon 1 sale_row empty_store ≡ ok (as_posted sale_row, after_purchase)
unfolding auto_post_bill check_no_existing_posting bill_accounts first_bill resolve resolve_key
    resolve_standard resolve_defined resolve_contact_account found_or_added find_account
    find_contact add_account cached resolve_tax_accounts definition_of standard_accounts
    create_bill_posting bill_arguments bill_appends vendor_payable tax_total tax_lines
    party_credited_last round_off_lines post build append line_draft entry_draft validate side_sum
    quantize commit_ledger_draft flush_entry flush_lines entry_of actor_of update_account_balances
    receive_lines receive_goods moved_goods find_product resolve_default_warehouse_id first_usable
    flush_stock abs ◌+ℤ◌ ◌-ℤ◌
purchase_posted = refl

empty_store-IsSound : IsSound empty_store.ledger
unfolding moved
empty_store-IsSound = record {
  agrees = record { kept = tt };
  balanced = refl;
  known = tt;
  distinct = tt;
  live = tt;
}

auto_post_invoice-IsSound_example : IsSound after_sale.ledger
auto_post_invoice-IsSound_example =
    auto_post_invoice-IsSound numbers at_noon 1 sale_row false true empty_store empty_store-IsSound
      sale_posted

auto_post_bill-IsSound_example : IsSound after_purchase.ledger
auto_post_bill-IsSound_example =
    auto_post_bill-IsSound numbers at_noon 1 sale_row empty_store empty_store-IsSound
      purchase_posted

nut_there : find_product 1 nut.id empty_store.inventory.products ≡ some nut
unfolding find_product
nut_there = refl

auto_post_invoice-StockMoved_example :
    StockMoved 1 nut
      (neg (moved_quantity nut (two_nuts ∷ [])))
      empty_store.inventory
      after_sale.inventory
auto_post_invoice-StockMoved_example =
    auto_post_invoice-StockMoved numbers at_noon 1 sale_row false true empty_store
      in_hundredths_exact nut_there sale_posted

auto_post_bill-StockMoved_example :
    StockMoved 1 nut
      (moved_quantity nut (two_nuts ∷ []))
      empty_store.inventory
      after_purchase.inventory
auto_post_bill-StockMoved_example =
    auto_post_bill-StockMoved numbers at_noon 1 sale_row empty_store in_hundredths_exact nut_there
      purchase_posted

auto_post_invoice_again_example :
    auto_post_invoice numbers at_noon 1 sale_row true false after_sale ≡ err already_posted
auto_post_invoice_again_example =
    auto_post_invoice_again numbers at_noon 1 sale_row false true true false empty_store sale_posted

abbrev cash_account : List Account
cash_account =
    new_account (numbered (standard "assets.cash") 1) 1 "Cash on Hand" "1001" asset
      (some "Cash & Bank")
    ∷ []

cash_resolved :
    resolve_key numbers 1 [] (standard "assets.cash") []
    ≡ ok (numbered (standard "assets.cash") 1, cash_account)
unfolding resolve_key resolve_standard resolve_defined definition_of standard_accounts
    found_or_added find_account add_account
cash_resolved = refl

resolve_key-FoundAccount_example :
    FoundAccount 1 [] (numbered (standard "assets.cash") 1) cash_account
resolve_key-FoundAccount_example =
    resolve_key-FoundAccount numbers 1 [] (standard "assets.cash") [] cash_resolved

resolve_key_again_example :
    resolve_key numbers 1 [] (standard "assets.cash") cash_account
    ≡ ok (numbered (standard "assets.cash") 1, cash_account)
resolve_key_again_example = resolve_key_again numbers 1 [] (standard "assets.cash") [] cash_resolved

abbrev note_row : NoteRow
note_row = record {
  id = 11;
  invoice_contact_id = some 5;
  number = "CN-1";
  issue_date = 19_801;
  subtotal = pos 500_000;
  cgst_amount = pos 45_000;
  sgst_amount = pos 45_000;
  igst_amount = pos 0;
  utgst_amount = pos 0;
  cess_amount = pos 0;
  round_off = pos 0;
  status = document_draft;
}

abbrev store_of_note : Result NoteError (NoteRow × Store) → Store
store_of_note (ok r) = r.1
store_of_note (err _) = empty_store

abbrev after_note : Store
after_note = store_of_note (auto_post_credit_note numbers at_noon 1 note_row empty_store)

credit_note_auto_posted :
    auto_post_credit_note numbers at_noon 1 note_row empty_store
    ≡ ok (note_posted note_row, after_note)
unfolding auto_post_credit_note post_note check_no_existing_posting invoice_accounts resolve
    resolve_key resolve_standard resolve_defined resolve_contact_account found_or_added find_account
    find_contact add_account cached resolve_tax_accounts definition_of standard_accounts
    create_credit_note_posting note_arguments credit_note_appends total tax_total tax_lines
    party_credited round_off_lines post build append line_draft entry_draft validate side_sum
    quantize commit_ledger_draft flush_entry flush_lines entry_of actor_of update_account_balances
    abs ◌+ℤ◌ ◌-ℤ◌
credit_note_auto_posted = refl

auto_post_note-IsSound_example : IsSound after_note.ledger
auto_post_note-IsSound_example =
    auto_post_note-IsSound numbers at_noon 1 note_row empty_store empty_store-IsSound
      (inl credit_note_auto_posted)

abbrev stocked_store : Store
stocked_store = record empty_store {
  inventory = record {
    products = nut ∷ [];
    movements =
        record {
          tenant_id = 1;
          product_id = 1;
          warehouse_id = some 3;
          quantity = pos 20_000;
          balance_quantity = pos 20_000;
          reference_type = "BILL";
          reference_id = 8;
          created_at = 900;
        }
        ∷ [];
    branches =
        record { id = 3; tenant_id = 1; is_active = true; created_at = 1; deleted = false } ∷ [];
    configured_warehouse = chosen 3;
    stock_column = in_hundredths;
  };
}

abbrev after_stocked_sale : Store
after_stocked_sale =
    store_of (auto_post_invoice numbers at_noon 1 sale_row false true stocked_store)

stocked_sale_posted :
    auto_post_invoice numbers at_noon 1 sale_row false true stocked_store
    ≡ ok (as_posted sale_row, after_stocked_sale)
unfolding auto_post_invoice check_no_existing_posting invoice_accounts resolve resolve_key
    resolve_standard resolve_defined resolve_contact_account found_or_added find_account
    find_contact add_account cached resolve_tax_accounts definition_of standard_accounts
    create_invoice_posting invoice_arguments invoice_appends receivable tax_total tax_lines
    party_debited round_off_lines post build append line_draft entry_draft validate side_sum
    quantize commit_ledger_draft flush_entry flush_lines entry_of actor_of update_account_balances
    issue_lines issue_goods moved_goods find_product resolve_default_warehouse_id usable_with_id
    quantity_sum get_warehouse_stock current_stock stock_set abs ◌+ℤ◌ ◌-ℤ◌
stocked_sale_posted = refl

stocked_store-InStock : InStock 1 3 stocked_store.inventory.movements
unfolding quantity_sum ◌+ℤ◌
stocked_store-InStock id = one_movement (1 == id)
  where
    one_movement : (b : Bool) → pos 0 ≤ℤ ((if b then pos 20_000 else pos 0) +ℤ pos 0)
    one_movement true = omega arith
    one_movement false = omega arith

default_is_three :
    default_warehouse (reference_to 1 "INVOICE" sale_row 1_000) stocked_store.inventory ≡ some 3
unfolding resolve_default_warehouse_id usable_with_id
default_is_three = refl

auto_post_invoice-InStock_example : InStock 1 3 after_stocked_sale.inventory.movements
auto_post_invoice-InStock_example =
    auto_post_invoice-InStock numbers at_noon 1 sale_row 3 true stocked_store (refl, tt)
      default_is_three stocked_store-InStock stocked_sale_posted

-- Two lines of two nuts each, where the warehouse holds two.
abbrev twice_row : DocumentRow
twice_row = record sale_row { lines = two_nuts ∷ two_nuts ∷ [] }

abbrev after_twice : Store
after_twice = store_of (auto_post_invoice numbers at_noon 1 twice_row false true stocked_store)

-- Both lines pass the check, and the warehouse holds minus two.
twice_oversold : quantity_sum (is_at 1 3 1) after_twice.inventory.movements ≡ negsuc 19_999
unfolding auto_post_invoice check_no_existing_posting invoice_accounts resolve resolve_key
    resolve_standard resolve_defined resolve_contact_account found_or_added find_account
    find_contact add_account cached resolve_tax_accounts definition_of standard_accounts
    create_invoice_posting invoice_arguments invoice_appends receivable tax_total tax_lines
    party_debited round_off_lines post build append line_draft entry_draft validate side_sum
    quantize commit_ledger_draft flush_entry flush_lines entry_of actor_of update_account_balances
    issue_lines issue_goods moved_goods find_product resolve_default_warehouse_id usable_with_id
    quantity_sum get_warehouse_stock current_stock stock_set move_stock flush_stock neg abs ◌+ℤ◌
    ◌-ℤ◌
twice_oversold = refl
