-- ===== src/AutoPost/Resolution.antt =====
-- `_check_no_existing_posting`, `_resolve_tax_accounts` and the accounts of an invoice and of a bill
-- (backend/src/domains/accounting/auto_post.py).
use Prim.Native.String.{◌++◌ as concat}
use text.Mathlib.Text.{◌==◌ as str_eq}
use bookkeeping.Accounts.Resolver.{
  AccountKey, Contact, ResolveError, Resolving, Texts, customer, resolve, standard, vendor,
}
use bookkeeping.AutoPost.Stock.{StockError}
use bookkeeping.Base.{
  Bool, List, Option, Result, String, [], any_of, err, false, none, ok, raise_if, some, true, ℕ,
  ◌&&◌, ◌==◌, ◌>>=◌,
}
use bookkeeping.Ledger.Commit.{CommitError}
use bookkeeping.Ledger.Tables.{Account, JournalEntry}
use bookkeeping.Posting.Draft.{LedgerError}

-- What a call may raise: its own guards, and what it lets through.
pub data PostError : Type 0 where
  already_posted : PostError
  duplicate_bill_number : PostError
  resolving : ResolveError → PostError
  posting : LedgerError → PostError
  committing : CommitError → PostError
  moving : StockError → PostError

abbrev pub raising : {E F A : Type 0} → (E → F) → Result E A → Result F A
raising f (ok a) = ok a
raising f (err e) = err (f e)

abbrev pub is_source : ℕ → String → ℕ → JournalEntry → Bool
is_source tenant source_type source e =
    e.tenant_id == tenant && str_eq e.source_type source_type && e.source_id == source

unfoldable pub check_no_existing_posting :
    ℕ → String → ℕ → List JournalEntry → Result PostError (Unit {0})
check_no_existing_posting tenant source_type source es =
    raise_if (any_of (is_source tenant source_type source) es) already_posted

pub data TaxSide : Type 0 where
  output_tax_accounts input_tax_accounts : TaxSide

abbrev pub suffix : TaxSide → String
suffix output_tax_accounts = "_output"
suffix input_tax_accounts = "_input"

pub record TaxAccounts : Type 0 where
  pub cgst : ℕ
  pub sgst : ℕ
  pub igst : ℕ
  pub utgst : ℕ
  pub cess : ℕ
  pub round_off : ℕ

-- The accounts of a document: the party's, that of sales or of purchases, and the taxes'.
pub record DocumentAccounts : Type 0 where
  pub party : ℕ
  pub subject : ℕ
  pub tax : TaxAccounts
  pub tds : Option ℕ
  pub tcs : Option ℕ

-- `resolver.resolve(key) if amount and amount > 0 else None`
module _ (texts : Texts) (tenant : ℕ) (contacts : List Contact) where
  abbrev pub resolve_if : Bool → AccountKey → Resolving → Result ResolveError (Option ℕ × Resolving)
  resolve_if false key r = ok (none, r)
  resolve_if true key r = do found ← resolve texts tenant contacts key r; ok (some found.0, found.1)

  unfoldable pub resolve_tax_accounts :
      TaxSide → Resolving → Result ResolveError (TaxAccounts × Resolving)
  unfolding resolve
  resolve_tax_accounts side r = do
    cgst ← resolve texts tenant contacts (standard (concat "cgst" (suffix side))) r
    sgst ← resolve texts tenant contacts (standard (concat "sgst" (suffix side))) cgst.1
    igst ← resolve texts tenant contacts (standard (concat "igst" (suffix side))) sgst.1
    utgst ← resolve texts tenant contacts (standard (concat "utgst" (suffix side))) igst.1
    cess ← resolve texts tenant contacts (standard (concat "cess" (suffix side))) utgst.1
    round_off ← resolve texts tenant contacts (standard "round_off") cess.1
    ok (
      record {
        cgst = cgst.0;
        sgst = sgst.0;
        igst = igst.0;
        utgst = utgst.0;
        cess = cess.0;
        round_off = round_off.0;
      },
      round_off.1,
    )

  -- The accounts of an invoice, by its contact and whether tax is withheld or collected at source.
  unfoldable pub invoice_accounts :
      ℕ → Bool → Bool → List Account → Result ResolveError (DocumentAccounts × List Account)
  unfolding resolve resolve_tax_accounts
  invoice_accounts contact has_tds has_tcs accounts = do
    party ←
        resolve texts tenant contacts (customer contact)
          (record { cache = []; accounts = accounts })
    sales ← resolve texts tenant contacts (standard "sales_revenue") party.1
    tax ← resolve_tax_accounts output_tax_accounts sales.1
    tds ← resolve_if has_tds (standard "tds_receivable") tax.1
    tcs ← resolve_if has_tcs (standard "liability.tcs") tds.1
    ok (
      record { party = party.0; subject = sales.0; tax = tax.0; tds = tds.0; tcs = tcs.0 },
      tcs.1.accounts,
    )

  -- The accounts of a bill.
  unfoldable pub bill_accounts :
      ℕ → Bool → List Account → Result ResolveError (DocumentAccounts × List Account)
  unfolding resolve resolve_tax_accounts
  bill_accounts contact has_tds accounts = do
    party ←
        resolve texts tenant contacts (vendor contact) (record { cache = []; accounts = accounts })
    purchases ← resolve texts tenant contacts (standard "purchases") party.1
    tax ← resolve_tax_accounts input_tax_accounts purchases.1
    tds ← resolve_if has_tds (standard "liability.tds") tax.1
    ok (
      record { party = party.0; subject = purchases.0; tax = tax.0; tds = tds.0; tcs = none },
      tds.1.accounts,
    )
