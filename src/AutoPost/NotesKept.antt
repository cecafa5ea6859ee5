-- ===== src/AutoPost/NotesKept.antt =====
-- Posting a note keeps the ledger sound.
use Prim.Native.String.{◌++◌ as concat}
use bookkeeping.Accounts.Resolver.{Texts}
use bookkeeping.Accounts.ResolverLaws.{Owned}
use bookkeeping.AutoPost.Appends.{party_debited-Owned}
use bookkeeping.AutoPost.Documents.{Store}
use bookkeeping.AutoPost.Named.{Shares, document_list-Shares, round_off_lines-owned}
use bookkeeping.AutoPost.Notes.{
  NoteRow, auto_post_credit_note, auto_post_debit_note, linked, note_arguments, noting, post_note,
}
use bookkeeping.AutoPost.Owned.{AllOwned, invoice_accounts-owned}
use bookkeeping.AutoPost.Posted.{posted_commit-IsSound, raising_ok}
use bookkeeping.AutoPost.Resolution.{
  DocumentAccounts, PostError, check_no_existing_posting, committing, invoice_accounts, posting,
  raising, resolving,
}
use bookkeeping.AutoPost.Sound.{all_named}
use bookkeeping.Base.{
  List, Result, String, ap, bind-ok, err, false, inl, inr, none, ok, ok-injective, some, ℕ, ◌≡◌,
  ◌⊎◌,
}
use bookkeeping.Int.{ℤ}
use bookkeeping.Ledger.Commit.{PostingContext, commit_ledger_draft}
use bookkeeping.Ledger.Reach.{IsSound}
use bookkeeping.Ledger.Tables.{Account, JournalEntry, Ledger}
use bookkeeping.Posting.Documents.{Document}
use bookkeeping.Posting.Draft.{JournalEntryDraft, LedgerError, credit, debit}
use bookkeeping.Posting.Lines.{exchange, party_credited, tax_lines}
use bookkeeping.Posting.Notes.{
  create_credit_note_posting, create_debit_note_posting, credit_note_appends, debit_note_appends,
}

noting_ok : {A : Type 0} (r : Result PostError A) {x : A} → noting r ≡ ok x → r ≡ ok x
noting_ok (ok a) h = ap ok (ok-injective h)
noting_ok (err e) h = cc

module _ (tenant : ℕ) (accounts : List Account) where
  party_credited-Owned :
      (n : String) (r c : ℕ) (x : ℤ)
      → Owned tenant c accounts
      → Owned tenant r accounts
      → AllOwned tenant (all_named (party_credited n (some r) c x)) accounts
  unfolding party_credited
  party_credited-Owned n r c x party round_off =
      round_off_lines-owned tenant accounts r x (λ y. exchange x n c credit y debit)
        (λ y. exchange x n y credit c debit) (party, (round_off, tt)) (round_off, (party, tt))

  credit_note_appends-owned :
      (n : NoteRow) (a : DocumentAccounts)
      → Shares tenant accounts a
      → AllOwned tenant (all_named (credit_note_appends (note_arguments tenant n a))) accounts
  unfolding credit_note_appends note_arguments tax_lines
  credit_note_appends-owned n a s = (
    s.subject,
    (
      s.party,
      (
        s.cgst,
        (
          s.sgst,
          (
            s.igst,
            (
              s.utgst,
              (
                s.cess,
                party_credited-Owned (concat "Round-off: " n.number) a.tax.round_off a.party
                    n.round_off s.party s.round_off,
              ),
            ),
          ),
        ),
      ),
    ),
  )

  debit_note_appends-owned :
      (n : NoteRow) (a : DocumentAccounts)
      → Shares tenant accounts a
      → AllOwned tenant (all_named (debit_note_appends (note_arguments tenant n a))) accounts
  unfolding debit_note_appends note_arguments tax_lines
  debit_note_appends-owned n a s = (
    s.party,
    (
      s.subject,
      (
        s.cgst,
        (
          s.sgst,
          (
            s.igst,
            (
              s.utgst,
              (
                s.cess,
                party_debited-Owned tenant accounts (concat "Round-off: " n.number) a.tax.round_off
                    a.party n.round_off s.party s.round_off,
              ),
            ),
          ),
        ),
      ),
    ),
  )

module _ (texts : Texts) (ctx : PostingContext) (tenant : ℕ) where
  post_note-IsSound :
      (create : Document → Result LedgerError JournalEntryDraft) (contact : ℕ) (n : NoteRow)
      (db : Store) {row : NoteRow} {after : Store}
      → ((a : DocumentAccounts) (l : Ledger) (draft : JournalEntryDraft)
            (committed : JournalEntry × Ledger)
          → Shares tenant l.accounts a
          → IsSound l
          → create (note_arguments tenant n a) ≡ ok draft
          → commit_ledger_draft ctx tenant draft none l ≡ ok committed
          → IsSound committed.1)
      → IsSound db.ledger
      → post_note texts ctx tenant create contact n db ≡ ok (row, after)
      → IsSound after.ledger
  unfolding post_note
  post_note-IsSound create contact n db {row} {after} keeps sound h =
      let (found, e1, h2) =
        bind-ok
          (raising resolving
            (invoice_accounts texts tenant db.contacts contact false false db.ledger.accounts))
          _ h in
      let (draft, e2, h3) =
        bind-ok (raising posting (create (note_arguments tenant n found.0))) _ h2 in
      let (committed, e3, last) =
        bind-ok
          (raising committing
            (commit_ledger_draft ctx tenant draft none (record db.ledger { accounts = found.1 })))
          _ h3 in
      let (progress, own) =
        invoice_accounts-owned texts tenant db.contacts contact false false
          (raising_ok resolving _ e1) in
      let same_ledger : committed.1 ≡ after.ledger =
        ap (λ (x : NoteRow × Store). x.1.ledger) (ok-injective last) in
      rw (← same_ledger) (
        keeps found.0 (record db.ledger { accounts = found.1 }) draft committed
          (document_list-Shares tenant found.1 found.0 own) (progress.sound db.ledger.entries sound)
          (raising_ok posting _ e2) (raising_ok committing _ e3))

  auto_post_credit_note-IsSound :
      (n : NoteRow) (db : Store) {row : NoteRow} {after : Store}
      → IsSound db.ledger
      → auto_post_credit_note texts ctx tenant n db ≡ ok (row, after)
      → IsSound after.ledger
  unfolding auto_post_credit_note create_credit_note_posting note_arguments
  auto_post_credit_note-IsSound n db sound h =
      let (u, e0, h0) =
        bind-ok (noting (check_no_existing_posting tenant "CREDIT_NOTE" n.id db.ledger.entries)) _
          h in
      let (contact, e1, last) = bind-ok (linked n.invoice_contact_id) _ h0 in
      post_note-IsSound create_credit_note_posting contact n db
        (λ a l draft committed s k made done.
          posted_commit-IsSound ctx tenant n.issue_date n.number (concat "Credit Note " n.number)
            "CREDIT_NOTE" n.id (credit_note_appends (note_arguments tenant n a)) l
            (credit_note_appends-owned tenant l.accounts n a s) k made done)
        sound (noting_ok _ last)

  auto_post_debit_note-IsSound :
      (n : NoteRow) (db : Store) {row : NoteRow} {after : Store}
      → IsSound db.ledger
      → auto_post_debit_note texts ctx tenant n db ≡ ok (row, after)
      → IsSound after.ledger
  unfolding auto_post_debit_note create_debit_note_posting note_arguments
  auto_post_debit_note-IsSound n db sound h =
      let (u, e0, h0) =
        bind-ok (noting (check_no_existing_posting tenant "DEBIT_NOTE" n.id db.ledger.entries)) _
          h in
      let (contact, e1, last) = bind-ok (linked n.invoice_contact_id) _ h0 in
      post_note-IsSound create_debit_note_posting contact n db
        (λ a l draft committed s k made done.
          posted_commit-IsSound ctx tenant n.issue_date n.number (concat "Debit Note " n.number)
            "DEBIT_NOTE" n.id (debit_note_appends (note_arguments tenant n a)) l
            (debit_note_appends-owned tenant l.accounts n a s) k made done)
        sound (noting_ok _ last)

  -- Where a credit note or a debit note is posted, a sound ledger is sound again: its accounts are resolved
  -- or made, its entry is balanced and on accounts of the tenant, and every kept balance counts it.
  pub auto_post_note-IsSound :
      (n : NoteRow) (db : Store) {row : NoteRow} {after : Store}
      → IsSound db.ledger
      → (auto_post_credit_note texts ctx tenant n db ≡ ok (row, after))
        ⊎ (auto_post_debit_note texts ctx tenant n db ≡ ok (row, after))
      → IsSound after.ledger
  auto_post_note-IsSound n db sound (inl h) = auto_post_credit_note-IsSound n db sound h
  auto_post_note-IsSound n db sound (inr h) = auto_post_debit_note-IsSound n db sound h
