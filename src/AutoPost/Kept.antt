-- ===== src/AutoPost/Kept.antt =====
-- What posting a document keeps.
use Prim.Native.String.{◌++◌ as concat}
use text.Mathlib.TextPositions.{eq_refl}
use bookkeeping.Accounts.Resolver.{Texts}
use bookkeeping.Accounts.ResolverLaws.{any_of_right}
use bookkeeping.AutoPost.Documents.{
  DocumentRow, Store, auto_post_bill, auto_post_invoice, invoice_arguments,
}
use bookkeeping.AutoPost.Named.{document_list-Shares}
use bookkeeping.AutoPost.Owned.{bill_accounts-owned, invoice_accounts-owned}
use bookkeeping.AutoPost.Posted.{
  auto_post_bill-BillPosted, auto_post_invoice-InvoicePosted, bill_committed-IsSound,
  invoice_committed-IsSound,
}
use bookkeeping.AutoPost.Resolution.{already_posted, check_no_existing_posting, is_source}
use bookkeeping.Base.{
  Bool, List, String, any_of, ap, arith, bind-ok, err, none, ok, ok-injective, refl, sym, true, ℕ,
  ◌≡◌,
}
use bookkeeping.Ledger.Commit.{
  PostingContext, account_ids, commit_ledger_draft, entry_of, flush_entry, flush_lines,
}
use bookkeeping.Ledger.Invariant.{commit_inversion}
use bookkeeping.Ledger.Reach.{IsSound}
use bookkeeping.Ledger.Tables.{JournalEntry, Ledger}
use bookkeeping.Posting.Draft.{JournalEntryDraft, entry_draft, validate}
use bookkeeping.Posting.Invoices.{create_invoice_posting, invoice_appends}
use bookkeeping.Posting.Lines.{Append, build, post}

post-source :
    (tenant date : ℕ) (reference description source_type : String) (source : ℕ) (ss : List Append)
    {e : JournalEntryDraft}
    → post tenant date reference description source_type source ss ≡ ok e
    → (e.tenant_id ≡ tenant) × (e.source_type ≡ source_type) × (e.source_id ≡ source)
unfolding post entry_draft
post-source tenant date reference description source_type source ss h =
    let (ls, b, h1) = bind-ok (build ss) _ h in
    let (u, v, last) = bind-ok (validate ls) _ h1 in rw (← ok-injective last) (refl, refl, refl)

commit-entry :
    (ctx : PostingContext) (tenant : ℕ) (draft : JournalEntryDraft) (db : Ledger)
    {entry : JournalEntry} {after : Ledger}
    → commit_ledger_draft ctx tenant draft none db ≡ ok (entry, after)
    → entry ≡ entry_of ctx draft none
unfolding commit_ledger_draft
commit-entry ctx tenant draft db h =
    let (w, unique, flushed) = bind-ok (flush_entry db.entries (entry_of ctx draft none)) _ h in
    let (u, f, q) = bind-ok (flush_lines (account_ids db.accounts) draft.lines) _ flushed in
    sym (ap (λ (t : JournalEntry × Ledger). t.0) (ok-injective q))

-- The entry that a posting has left is found by its source.
source_found :
    (ctx : PostingContext) (tenant date : ℕ) (reference description source_type : String)
    (source : ℕ) (ss : List Append) (db : Ledger) {draft : JournalEntryDraft} {entry : JournalEntry}
    {after : Ledger}
    → post tenant date reference description source_type source ss ≡ ok draft
    → commit_ledger_draft ctx tenant draft none db ≡ ok (entry, after)
    → any_of (is_source tenant source_type source) after.entries ≡ true
unfolding entry_of
source_found ctx tenant date reference description source_type source ss db {draft} {entry} {after}
      made done =
    let (t, y, i) = post-source tenant date reference description source_type source ss made in
    let (grown, lines, recalculated_all) = commit_inversion ctx tenant draft none db done in
    rw grown (
      any_of_right (is_source tenant source_type source) db.entries entry
        (rw (commit-entry ctx tenant draft db done, t, y, i, eq_refl source_type) (ground arith)))

module _ (texts : Texts) (ctx : PostingContext) (tenant : ℕ) (d : DocumentRow) where
  -- Where an invoice is posted, a sound ledger is sound again: its accounts are resolved or made, its
  -- entry is balanced and on accounts of the tenant, and every kept balance counts it.
  pub auto_post_invoice-IsSound :
      (allow_negative_stock moves_stock : Bool) (db : Store) {row : DocumentRow} {after : Store}
      → IsSound db.ledger
      → auto_post_invoice texts ctx tenant d allow_negative_stock moves_stock db ≡ ok (row, after)
      → IsSound after.ledger
  auto_post_invoice-IsSound allow_negative_stock moves_stock db sound h =
      let p =
        auto_post_invoice-InvoicePosted texts ctx tenant d allow_negative_stock moves_stock db h in
      let (progress, own) =
        invoice_accounts-owned texts tenant db.contacts d.contact_id _ _ p.resolved in
      invoice_committed-IsSound ctx tenant d p.accounts.0
        (record db.ledger { accounts = p.accounts.1 })
        (document_list-Shares tenant p.accounts.1 p.accounts.0 own)
        (progress.sound db.ledger.entries sound) p.made p.done

  -- Where a bill is posted, a sound ledger is sound again: its accounts are resolved or made, its entry
  -- is balanced and on accounts of the tenant, and every kept balance counts it.
  pub auto_post_bill-IsSound :
      (db : Store) {row : DocumentRow} {after : Store}
      → IsSound db.ledger
      → auto_post_bill texts ctx tenant d db ≡ ok (row, after)
      → IsSound after.ledger
  auto_post_bill-IsSound db sound h =
      let p = auto_post_bill-BillPosted texts ctx tenant d db h in
      let (progress, own) =
        bill_accounts-owned texts tenant db.contacts d.contact_id _ p.resolved in
      bill_committed-IsSound ctx tenant d p.accounts.0
        (record db.ledger { accounts = p.accounts.1 })
        (document_list-Shares tenant p.accounts.1 p.accounts.0 own)
        (progress.sound db.ledger.entries sound) p.made p.done

  -- An invoice that was posted is refused as posted already, whatever the second call is asked.
  pub auto_post_invoice_again :
      (allow_negative_stock moves_stock allow moves : Bool) (db : Store) {row : DocumentRow}
      {after : Store}
      → auto_post_invoice texts ctx tenant d allow_negative_stock moves_stock db ≡ ok (row, after)
      → auto_post_invoice texts ctx tenant d allow moves after ≡ err already_posted
  unfolding auto_post_invoice check_no_existing_posting create_invoice_posting invoice_arguments
  auto_post_invoice_again allow_negative_stock moves_stock allow moves db h =
      let p =
        auto_post_invoice-InvoicePosted texts ctx tenant d allow_negative_stock moves_stock db h in
      rw
        (source_found ctx tenant d.issue_date d.number
          (concat "Ledger posting for Sales invoice " d.number) "INVOICE" d.id
          (invoice_appends (invoice_arguments tenant d p.accounts.0))
          (record db.ledger { accounts = p.accounts.1 }) p.made p.done)
        refl
