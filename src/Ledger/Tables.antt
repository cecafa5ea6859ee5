-- ===== src/Ledger/Tables.antt =====
-- The rows of `Account`, `JournalEntry` and `JournalLine`
-- (backend/src/infrastructure/database/models.py) that posting reads and writes.
use bookkeeping.Base.{Bool, List, Option, String, [], false, ℕ, ◌++◌, ◌==◌, ◌||◌, ◌∷◌}
use bookkeeping.Int.{ℤ}
use bookkeeping.Posting.Draft.{JournalLineDraft}

pub data AccountType : Type 0 where
  asset liability equity revenue expense : AccountType

pub record Account : Type 0 where
  pub id : ℕ
  pub tenant_id : ℕ
  pub name : String
  pub code : String
  pub account_type : AccountType
  pub account_group : Option String
  pub opening_balance : ℤ
  pub current_balance : ℤ
  pub is_active : Bool
  -- `deleted_at` is set
  pub deleted : Bool

-- A journal line holds the four values of its draft.
abbrev pub JournalLine : Type 0
JournalLine = JournalLineDraft

pub record JournalEntry : Type 0 where
  pub tenant_id : ℕ
  pub entry_date : ℕ
  pub reference_number : String
  pub description : String
  pub source_type : String
  pub source_id : ℕ
  pub created_by : Option ℕ
  pub posted_by : Option ℕ
  pub posted_at : ℕ
  pub source_channel : String
  pub lines : List JournalLine

pub record Ledger : Type 0 where
  pub accounts : List Account
  pub entries : List JournalEntry

-- The table of journal lines, entry by entry.
abbrev pub journal_lines : List JournalEntry → List JournalLine
journal_lines [] = []
journal_lines (e ∷ es) = e.lines ++ journal_lines es

abbrev pub member : ℕ → List ℕ → Bool
member a [] = false
member a (b ∷ bs) = a == b || member a bs
