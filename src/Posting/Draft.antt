-- ===== src/Posting/Draft.antt =====
-- `JournalLineDraft` and `JournalEntryDraft` of backend/src/domains/accounting/services.py. The
-- constructors that may raise are functions into `Result`. Identifiers are only compared, so they
-- are naturals; a date is its day number. A direction other than the two is refused by the source
-- and cannot be written here.
use bookkeeping.Base.{List, Result, String, [], length, ltb, ok, raise_if, ℕ, ◌>>◌, ◌∷◌}
use bookkeeping.Int.{abs, leb_ℤ, ltb_ℤ, pos, ℤ, ◌+ℤ◌, ◌-ℤ◌}
use bookkeeping.Money.{quantize}

pub data Direction : Type 0 where
  debit credit : Direction

-- The messages of `LedgerValidationError`.
pub data LedgerError : Type 0 where
  nonpositive_amount too_few_lines out_of_balance : LedgerError

pub record JournalLineDraft : Type 0 where
  pub account_id : ℕ
  pub amount : ℤ
  pub direction : Direction
  pub narration : String

pub record JournalEntryDraft : Type 0 where
  pub tenant_id : ℕ
  pub entry_date : ℕ
  pub reference_number : String
  pub description : String
  pub source_type : String
  pub source_id : ℕ
  pub lines : List JournalLineDraft

-- `JournalLineDraft(account_id, amount, direction, narration)`
unfoldable pub line_draft : ℕ → ℤ → Direction → String → Result LedgerError JournalLineDraft
line_draft a x d n = do
  raise_if (leb_ℤ x (pos 0)) nonpositive_amount
  ok (record { account_id = a; amount = quantize x; direction = d; narration = n })

abbrev pub amount_if : Direction → JournalLineDraft → ℤ
amount_if debit l = elim l.direction [ debit ↦ l.amount | credit ↦ pos 0 ]
amount_if credit l = elim l.direction [ debit ↦ pos 0 | credit ↦ l.amount ]

-- `sum(line.amount for line in self.lines if line.direction == d)`
unfoldable pub side_sum : Direction → List JournalLineDraft → ℤ
side_sum d [] = pos 0
side_sum d (l ∷ ls) = amount_if d l +ℤ side_sum d ls

unfoldable pub validate : List JournalLineDraft → Result LedgerError (Unit {0})
validate ls = do
  raise_if (ltb (length ls) 2) too_few_lines
  raise_if (ltb_ℤ (pos 0) (abs (side_sum debit ls -ℤ side_sum credit ls))) out_of_balance

-- `JournalEntryDraft(...)`: the fields are set, then `validate` runs.
unfoldable pub entry_draft :
    ℕ
    → ℕ
    → String
    → String
    → String
    → ℕ
    → List JournalLineDraft
    → Result LedgerError JournalEntryDraft
entry_draft tenant date reference description source_type source ls = do
  validate ls
  ok (record {
    tenant_id = tenant;
    entry_date = date;
    reference_number = reference;
    description = description;
    source_type = source_type;
    source_id = source;
    lines = ls;
  })
