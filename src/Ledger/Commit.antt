-- ===== src/Ledger/Commit.antt =====
-- `update_account_balances` and `commit_ledger_draft`
-- (backend/src/domains/accounting/services.py).
use text.Mathlib.Text.{◌==◌ as str_eq}
use bookkeeping.Base.{
  Bool, List, Option, Result, String, [], any_of, false, if◌then◌else◌, map, none, not, ok, or_else,
  raise_if, some, true, ℕ, ◌&&◌, ◌++◌, ◌==◌, ◌>>◌, ◌∷◌,
}
use bookkeeping.Int.{leb_ℤ, pos, ℤ, ◌+ℤ◌, ◌-ℤ◌}
use bookkeeping.Ledger.Tables.{
  Account, AccountType, JournalEntry, JournalLine, Ledger, asset, expense, journal_lines, member,
}
use bookkeeping.Posting.Draft.{Direction, JournalEntryDraft, amount_if, credit, debit}

-- `func.sum(JournalLine.amount)` over the lines of one account and one direction, or 0.
unfoldable pub line_sum : Direction → ℕ → List JournalLine → ℤ
line_sum d a [] = pos 0
line_sum d a (l ∷ ls) = (if l.account_id == a then amount_if d l else pos 0) +ℤ line_sum d a ls

-- `account.account_type in ("ASSET", "EXPENSE")`
abbrev pub is_debit_type : AccountType → Bool
is_debit_type asset = true
is_debit_type expense = true
is_debit_type _ = false

unfoldable pub recalculated : List JournalLine → Account → ℤ
recalculated ls a =
    let debit_sum = line_sum debit a.id ls in
    let credit_sum = line_sum credit a.id ls in
    if is_debit_type a.account_type
    then a.opening_balance +ℤ debit_sum -ℤ credit_sum
    else a.opening_balance +ℤ credit_sum -ℤ debit_sum

-- The filters of the query: the tenant's live accounts, and those listed where there is a list.
unfoldable pub is_selected : ℕ → Option (List ℕ) → Account → Bool
is_selected tenant none a = a.tenant_id == tenant && not a.deleted
is_selected tenant (some ids) a = a.tenant_id == tenant && not a.deleted && member a.id ids

abbrev pub recalculate : ℕ → Option (List ℕ) → List JournalLine → Account → Account
recalculate tenant ids ls a =
    if is_selected tenant ids a then record a { current_balance = recalculated ls a } else a

-- An empty list of accounts returns at once.
unfoldable pub update_account_balances : ℕ → Option (List ℕ) → Ledger → Ledger
update_account_balances tenant (some []) db = db
update_account_balances tenant ids db = record db {
  accounts = map (recalculate tenant ids (journal_lines db.entries)) db.accounts;
}

pub data CommitError : Type 0 where
  -- `CheckConstraint("amount > 0")` of `journal_lines`
  nonpositive_line : CommitError
  -- `ForeignKey("accounts.id")` of `journal_lines`
  unknown_account : CommitError
  -- `uq_journal_entries_tenant_reference` and `uq_journal_entries_tenant_source`
  duplicate_reference duplicate_source : CommitError

-- What the call reads from the session, the request and the clock.
pub record PostingContext : Type 0 where
  pub session_actor : Option ℕ
  pub request_actor : Option ℕ
  pub channel : String
  pub now : ℕ

unfoldable pub actor_of : PostingContext → Option ℕ → Option ℕ
actor_of ctx actor = or_else actor (or_else ctx.session_actor ctx.request_actor)

abbrev pub account_ids : List Account → List ℕ
account_ids [] = []
account_ids (a ∷ rest) = a.id ∷ account_ids rest

abbrev pub line_accounts : List JournalLine → List ℕ
line_accounts [] = []
line_accounts (l ∷ ls) = l.account_id ∷ line_accounts ls

abbrev pub same_reference : JournalEntry → JournalEntry → Bool
same_reference e d = d.tenant_id == e.tenant_id && str_eq d.reference_number e.reference_number

abbrev pub same_source : JournalEntry → JournalEntry → Bool
same_source e d =
    d.tenant_id == e.tenant_id && str_eq d.source_type e.source_type && d.source_id == e.source_id

-- `db.flush()` on the new rows: the constraints of the two tables.
unfoldable pub flush_entry : List JournalEntry → JournalEntry → Result CommitError (Unit {0})
flush_entry es e = do
  raise_if (any_of (same_reference e) es) duplicate_reference
  raise_if (any_of (same_source e) es) duplicate_source

unfoldable pub flush_lines : List ℕ → List JournalLine → Result CommitError (Unit {0})
flush_lines ids [] = ok tt
flush_lines ids (l ∷ ls) = do
  raise_if (leb_ℤ l.amount (pos 0)) nonpositive_line
  raise_if (not (member l.account_id ids)) unknown_account
  flush_lines ids ls

unfoldable pub entry_of : PostingContext → JournalEntryDraft → Option ℕ → JournalEntry
entry_of ctx draft actor = record {
  tenant_id = draft.tenant_id;
  entry_date = draft.entry_date;
  reference_number = draft.reference_number;
  description = draft.description;
  source_type = draft.source_type;
  source_id = draft.source_id;
  created_by = actor_of ctx actor;
  posted_by = actor_of ctx actor;
  posted_at = ctx.now;
  source_channel = ctx.channel;
  lines = draft.lines;
}

unfoldable pub commit_ledger_draft :
    PostingContext
    → ℕ
    → JournalEntryDraft
    → Option ℕ
    → Ledger
    → Result CommitError (JournalEntry × Ledger)
commit_ledger_draft ctx tenant draft actor db = do
  let entry = entry_of ctx draft actor
  flush_entry db.entries entry
  flush_lines (account_ids db.accounts) draft.lines
  let stored = record db { entries = db.entries ++ entry ∷ [] }
  ok (entry, update_account_balances tenant (some (line_accounts draft.lines)) stored)
