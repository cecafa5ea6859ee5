-- ===== src/AutoPost/Notes.antt =====
-- `auto_post_credit_note` and `auto_post_debit_note`
-- (backend/src/domains/accounting/auto_post.py).
use bookkeeping.Accounts.Resolver.{Texts}
use bookkeeping.AutoPost.Documents.{DocumentStatus, Store, document_posted}
use bookkeeping.AutoPost.Resolution.{
  DocumentAccounts, PostError, TaxAccounts, check_no_existing_posting, committing, invoice_accounts,
  posting, raising, resolving,
}
use bookkeeping.Base.{Option, Result, String, err, false, none, ok, some, ℕ, ◌>>=◌, ◌>>◌}
use bookkeeping.Int.{ℤ}
use bookkeeping.Ledger.Commit.{PostingContext, commit_ledger_draft}
use bookkeeping.Posting.Documents.{Document}
use bookkeeping.Posting.Draft.{JournalEntryDraft, LedgerError}
use bookkeeping.Posting.Lines.{Taxes}
use bookkeeping.Posting.Notes.{create_credit_note_posting, create_debit_note_posting}

-- A credit or debit note, with the contact of its invoice. An amount that is null is zero.
pub record NoteRow : Type 0 where
  pub id : ℕ
  pub invoice_contact_id : Option ℕ
  pub number : String
  pub issue_date : ℕ
  pub subtotal : ℤ
  pub cgst_amount : ℤ
  pub sgst_amount : ℤ
  pub igst_amount : ℤ
  pub utgst_amount : ℤ
  pub cess_amount : ℤ
  pub round_off : ℤ
  pub status : DocumentStatus

pub data NoteError : Type 0 where
  not_linked : NoteError
  note_post : PostError → NoteError

abbrev pub note_taxes : NoteRow → TaxAccounts → Taxes
note_taxes n t = record {
  cgst_account_id = some t.cgst;
  cgst_amount = n.cgst_amount;
  sgst_account_id = some t.sgst;
  sgst_amount = n.sgst_amount;
  igst_account_id = some t.igst;
  igst_amount = n.igst_amount;
  utgst_account_id = some t.utgst;
  utgst_amount = n.utgst_amount;
  cess_account_id = some t.cess;
  cess_amount = n.cess_amount;
}

-- The arguments of the posting functions of notes.
unfoldable pub note_arguments : ℕ → NoteRow → DocumentAccounts → Document
note_arguments tenant n accounts = record {
  tenant_id = tenant;
  document_id = n.id;
  number = n.number;
  date = n.issue_date;
  party_account_id = accounts.party;
  nominal_account_id = accounts.subject;
  subtotal = n.subtotal;
  taxes = note_taxes n accounts.tax;
  round_off_account_id = some accounts.tax.round_off;
  round_off_amount = n.round_off;
}

abbrev pub note_posted : NoteRow → NoteRow
note_posted n = record n { status = document_posted }

-- What both functions do once the contact is known: the accounts are those of an invoice without tax
-- withheld or collected.
unfoldable pub post_note :
    Texts
    → PostingContext
    → ℕ
    → (Document → Result LedgerError JournalEntryDraft)
    → ℕ
    → NoteRow
    → Store
    → Result PostError (NoteRow × Store)
unfolding invoice_accounts note_arguments
post_note texts ctx tenant create contact n db = do
  found ←
      raising resolving
        (invoice_accounts texts tenant db.contacts contact false false db.ledger.accounts)
  draft ← raising posting (create (note_arguments tenant n found.0))
  committed ←
      raising committing
        (commit_ledger_draft ctx tenant draft none (record db.ledger { accounts = found.1 }))
  ok (note_posted n, record db { ledger = committed.1 })

-- `if not contact_id: raise ValueError(...)`
abbrev pub linked : Option ℕ → Result NoteError ℕ
linked none = err not_linked
linked (some contact) = ok contact

abbrev pub noting : {A : Type 0} → Result PostError A → Result NoteError A
noting (ok a) = ok a
noting (err e) = err (note_post e)

unfoldable pub auto_post_credit_note :
    Texts → PostingContext → ℕ → NoteRow → Store → Result NoteError (NoteRow × Store)
unfolding check_no_existing_posting post_note create_credit_note_posting
auto_post_credit_note texts ctx tenant n db = do
  noting (check_no_existing_posting tenant "CREDIT_NOTE" n.id db.ledger.entries)
  contact ← linked n.invoice_contact_id
  noting (post_note texts ctx tenant create_credit_note_posting contact n db)

unfoldable pub auto_post_debit_note :
    Texts → PostingContext → ℕ → NoteRow → Store → Result NoteError (NoteRow × Store)
unfolding check_no_existing_posting post_note create_debit_note_posting
auto_post_debit_note texts ctx tenant n db = do
  noting (check_no_existing_posting tenant "DEBIT_NOTE" n.id db.ledger.entries)
  contact ← linked n.invoice_contact_id
  noting (post_note texts ctx tenant create_debit_note_posting contact n db)
