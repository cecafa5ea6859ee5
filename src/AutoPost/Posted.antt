-- ===== src/AutoPost/Posted.antt =====
-- What posting an invoice or a bill comes to.
use Prim.Native.String.{◌++◌ as concat}
use bookkeeping.Accounts.Resolver.{Texts}
use bookkeeping.AutoPost.Appends.{bill_appends-owned, invoice_appends-owned}
use bookkeeping.AutoPost.Documents.{
  DocumentRow, Store, auto_post_bill, auto_post_invoice, bill_arguments, first_bill,
  invoice_arguments, is_another, is_same_bill, reference_to,
}
use bookkeeping.AutoPost.Named.{AllOwned-OwnLines, Shares}
use bookkeeping.AutoPost.Owned.{AllOwned}
use bookkeeping.AutoPost.Resolution.{
  DocumentAccounts, bill_accounts, check_no_existing_posting, committing, duplicate_bill_number,
  invoice_accounts, is_source, moving, posting, raising, resolving,
}
use bookkeeping.AutoPost.Sound.{all_named, post-AllOwned}
use bookkeeping.AutoPost.Stock.{StockSession, flush_stock, issue_lines, new_session, receive_lines}
use bookkeeping.Base.{
  Bool, List, Result, String, [], any_of, ap, arith, bind-ok, err, false, if◌then◌else◌, none, ok,
  ok-injective, raise_if, refl, ℕ, ◌≡◌,
}
use bookkeeping.Int.{ltb_ℤ, pos}
use bookkeeping.Ledger.Commit.{PostingContext, commit_ledger_draft}
use bookkeeping.Ledger.Reach.{IsSound, Step-IsSound, posted}
use bookkeeping.Ledger.Tables.{Account, JournalEntry, Ledger}
use bookkeeping.Posting.Bills.{bill_appends, create_bill_posting}
use bookkeeping.Posting.Draft.{JournalEntryDraft}
use bookkeeping.Posting.Invoices.{create_invoice_posting, invoice_appends}
use bookkeeping.Posting.Lines.{Append, post}

pub raising_ok :
    {E F A : Type 0} (f : E → F) (r : Result E A) {x : A} → raising f r ≡ ok x → r ≡ ok x
raising_ok f (ok a) h = ap ok (ok-injective h)
raising_ok f (err e) h = cc

-- A posting that names accounts of the tenant keeps a sound ledger sound.
pub posted_commit-IsSound :
    (ctx : PostingContext) (tenant date : ℕ) (reference description source_type : String)
    (source : ℕ) (ss : List Append) (db : Ledger) {draft : JournalEntryDraft}
    {committed : JournalEntry × Ledger}
    → AllOwned tenant (all_named ss) db.accounts
    → IsSound db
    → post tenant date reference description source_type source ss ≡ ok draft
    → commit_ledger_draft ctx tenant draft none db ≡ ok committed
    → IsSound committed.1
posted_commit-IsSound ctx tenant date reference description source_type source ss db {draft}
      {committed} own sound made done =
    let (valid, lines) =
      post-AllOwned tenant date reference description source_type source ss db.accounts own made in
    Step-IsSound
      (posted ctx tenant draft none committed.0 valid
        (AllOwned-OwnLines tenant draft.lines db.accounts sound.distinct lines) done)
      sound

module _ (ctx : PostingContext) (tenant : ℕ) (d : DocumentRow) (a : DocumentAccounts) (db : Ledger)
    {draft : JournalEntryDraft} {committed : JournalEntry × Ledger} where
  pub invoice_committed-IsSound :
      Shares tenant db.accounts a
      → IsSound db
      → create_invoice_posting (invoice_arguments tenant d a) ≡ ok draft
      → commit_ledger_draft ctx tenant draft none db ≡ ok committed
      → IsSound committed.1
  unfolding create_invoice_posting invoice_arguments
  invoice_committed-IsSound s sound made done =
      posted_commit-IsSound ctx tenant d.issue_date d.number
        (concat "Ledger posting for Sales invoice " d.number) "INVOICE" d.id
        (invoice_appends (invoice_arguments tenant d a)) db
        (invoice_appends-owned tenant db.accounts d a s) sound made done

  pub bill_committed-IsSound :
      Shares tenant db.accounts a
      → IsSound db
      → create_bill_posting (bill_arguments tenant d a) ≡ ok draft
      → commit_ledger_draft ctx tenant draft none db ≡ ok committed
      → IsSound committed.1
  unfolding create_bill_posting bill_arguments
  bill_committed-IsSound s sound made done =
      posted_commit-IsSound ctx tenant d.issue_date d.number
        (concat "Ledger posting for vendor bill " d.number) "BILL" d.id
        (bill_appends (bill_arguments tenant d a)) db (bill_appends-owned tenant db.accounts d a s)
        sound made done

module _ (texts : Texts) (ctx : PostingContext) (tenant : ℕ) (d : DocumentRow) where
  -- What an invoice that is posted has gone through.
  pub record InvoicePosted (allow_negative_stock moves_stock : Bool) (db after : Store)
      : Type 0 where
    pub unposted : any_of (is_source tenant "INVOICE" d.id) db.ledger.entries ≡ false
    pub accounts : DocumentAccounts × List Account
    pub resolved :
        invoice_accounts texts tenant db.contacts d.contact_id
          (ltb_ℤ (pos 0) d.tds_amount)
          (ltb_ℤ (pos 0) d.tcs_amount)
          db.ledger.accounts
        ≡ ok accounts
    pub draft : JournalEntryDraft
    pub made : create_invoice_posting (invoice_arguments tenant d accounts.0) ≡ ok draft
    pub entry : JournalEntry
    pub done :
        commit_ledger_draft ctx tenant draft none (record db.ledger { accounts = accounts.1 })
        ≡ ok (entry, after.ledger)
    pub session : StockSession
    pub stock :
        issue_lines allow_negative_stock
          (reference_to tenant "INVOICE" d ctx.now)
          (if moves_stock then d.lines else [])
          (new_session db.inventory)
        ≡ ok session
    pub flushed : after.inventory ≡ flush_stock tenant session

  pub auto_post_invoice-InvoicePosted :
      (allow_negative_stock moves_stock : Bool) (db : Store) {row : DocumentRow} {after : Store}
      → auto_post_invoice texts ctx tenant d allow_negative_stock moves_stock db ≡ ok (row, after)
      → InvoicePosted allow_negative_stock moves_stock db after
  unfolding auto_post_invoice check_no_existing_posting
  auto_post_invoice-InvoicePosted allow_negative_stock moves_stock db {row} {after} h =
      let (u, e0, h1) =
        bind-ok (check_no_existing_posting tenant "INVOICE" d.id db.ledger.entries) _ h in
      let (found, e1, h2) =
        bind-ok
          (raising resolving (
            invoice_accounts texts tenant db.contacts d.contact_id (ltb_ℤ (pos 0) d.tds_amount)
              (ltb_ℤ (pos 0) d.tcs_amount) db.ledger.accounts))
          _ h1 in
      let (draft, e2, h3) =
        bind-ok (raising posting (create_invoice_posting (invoice_arguments tenant d found.0))) _
          h2 in
      let (committed, e3, h4) =
        bind-ok
          (raising committing
            (commit_ledger_draft ctx tenant draft none (record db.ledger { accounts = found.1 })))
          _ h3 in
      let (moved_on, e4, last) =
        bind-ok
          (raising moving (
            issue_lines allow_negative_stock (reference_to tenant "INVOICE" d ctx.now)
              (if moves_stock then d.lines else []) (new_session db.inventory)))
          _ h4 in
      let whole = ok-injective last in
      rw (← ap (λ (x : DocumentRow × Store). x.1) whole) (record {
        unposted = ground arith;
        accounts = found;
        resolved = raising_ok resolving _ e1;
        draft = draft;
        made = raising_ok posting _ e2;
        entry = committed.0;
        done = raising_ok committing _ e3;
        session = moved_on;
        stock = raising_ok moving _ e4;
        flushed = refl;
      })

  -- What a bill that is posted has gone through.
  pub record BillPosted (db after : Store) : Type 0 where
    pub unposted : any_of (is_source tenant "BILL" d.id) db.ledger.entries ≡ false
    pub sole : is_another d (first_bill (is_same_bill tenant d) db.bills) ≡ false
    pub accounts : DocumentAccounts × List Account
    pub resolved :
        bill_accounts texts tenant db.contacts d.contact_id
          (ltb_ℤ (pos 0) d.tds_amount)
          db.ledger.accounts
        ≡ ok accounts
    pub draft : JournalEntryDraft
    pub made : create_bill_posting (bill_arguments tenant d accounts.0) ≡ ok draft
    pub entry : JournalEntry
    pub done :
        commit_ledger_draft ctx tenant draft none (record db.ledger { accounts = accounts.1 })
        ≡ ok (entry, after.ledger)
    pub stock :
        after.inventory
        ≡ flush_stock tenant (
            receive_lines (reference_to tenant "BILL" d ctx.now) d.lines (new_session db.inventory))

  pub auto_post_bill-BillPosted :
      (db : Store) {row : DocumentRow} {after : Store}
      → auto_post_bill texts ctx tenant d db ≡ ok (row, after)
      → BillPosted db after
  unfolding auto_post_bill check_no_existing_posting
  auto_post_bill-BillPosted db {row} {after} h =
      let (u, e0, h0) =
        bind-ok (check_no_existing_posting tenant "BILL" d.id db.ledger.entries) _ h in
      let (w, e9, h1) =
        bind-ok
          (raise_if (is_another d (first_bill (is_same_bill tenant d) db.bills))
            duplicate_bill_number)
          _ h0 in
      let (found, e1, h2) =
        bind-ok
          (raising resolving (
            bill_accounts texts tenant db.contacts d.contact_id (ltb_ℤ (pos 0) d.tds_amount)
              db.ledger.accounts))
          _ h1 in
      let (draft, e2, h3) =
        bind-ok (raising posting (create_bill_posting (bill_arguments tenant d found.0))) _ h2 in
      let (committed, e3, last) =
        bind-ok
          (raising committing
            (commit_ledger_draft ctx tenant draft none (record db.ledger { accounts = found.1 })))
          _ h3 in
      let whole = ok-injective last in
      rw (← ap (λ (x : DocumentRow × Store). x.1) whole) (record {
        unposted = ground arith;
        sole = ground arith;
        accounts = found;
        resolved = raising_ok resolving _ e1;
        draft = draft;
        made = raising_ok posting _ e2;
        entry = committed.0;
        done = raising_ok committing _ e3;
        stock = refl;
      })
