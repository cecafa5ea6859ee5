-- ===== src/Ledger/RollForward.antt =====
-- `carry_forward_balances` (backend/src/domains/accounting/roll_forward.py). A date is its day
-- number; the identifiers and times of the snapshots are left out, as nothing reads them.
use bookkeeping.Base.{
  Bool, List, String, [], false, if◌then◌else◌, leb, length, ltb, map, not, some, suc, true, ℕ,
  ◌&&◌, ◌++◌, ◌==◌, ◌∷◌,
}
use bookkeeping.Int.{leb_ℤ, pos, ℤ}
use bookkeeping.Ledger.Commit.{account_ids, is_debit_type, recalculated, update_account_balances}
use bookkeeping.Ledger.Tables.{
  Account, AccountType, JournalEntry, JournalLine, Ledger, asset, equity, liability,
}
use bookkeeping.Posting.Draft.{Direction, credit, debit}

pub record ClosingYear : Type 0 where
  pub id : ℕ
  pub start_date : ℕ
  pub end_date : ℕ

pub record OpeningBalanceSnapshot : Type 0 where
  pub tenant_id : ℕ
  pub financial_year_id : ℕ
  pub account_id : ℕ
  pub account_type : AccountType
  pub account_name : String
  pub account_code : String
  pub closing_balance : ℤ
  pub direction : Direction

pub record Books : Type 0 where
  pub ledger : Ledger
  pub snapshots : List OpeningBalanceSnapshot

abbrev pub is_permanent_type : AccountType → Bool
is_permanent_type asset = true
is_permanent_type liability = true
is_permanent_type equity = true
is_permanent_type _ = false

-- The filters of the query for the permanent accounts.
abbrev pub is_permanent : ℕ → Account → Bool
is_permanent tenant a = a.tenant_id == tenant && is_permanent_type a.account_type && not a.deleted

unfoldable pub permanent_accounts : ℕ → List Account → List Account
permanent_accounts tenant [] = []
permanent_accounts tenant (a ∷ rest) =
    if is_permanent tenant a
    then a ∷ permanent_accounts tenant rest
    else permanent_accounts tenant rest

-- The lines of the tenant's entries that are dated within the closing year.
unfoldable pub year_lines : ℕ → ClosingYear → List JournalEntry → List JournalLine
year_lines tenant fy [] = []
year_lines tenant fy (e ∷ es) =
    if e.tenant_id == tenant && leb fy.start_date e.entry_date && leb e.entry_date fy.end_date
    then e.lines ++ year_lines tenant fy es
    else year_lines tenant fy es

abbrev pub snapshot_count : ℕ → ℕ → List OpeningBalanceSnapshot → ℕ
snapshot_count tenant fy [] = 0
snapshot_count tenant fy (s ∷ rest) =
    if s.tenant_id == tenant && s.financial_year_id == fy
    then suc (snapshot_count tenant fy rest)
    else snapshot_count tenant fy rest

abbrev pub other_side : Direction → Direction
other_side debit = credit
other_side credit = debit

abbrev pub normal_side : AccountType → Direction
normal_side t = if is_debit_type t then debit else credit

unfoldable pub snapshot_of : ℕ → ClosingYear → List JournalLine → Account → OpeningBalanceSnapshot
unfolding recalculated
snapshot_of tenant fy ls a =
    let closing_balance = recalculated ls a in
    record {
      tenant_id = tenant;
      financial_year_id = fy.id;
      account_id = a.id;
      account_type = a.account_type;
      account_name = a.name;
      account_code = a.code;
      closing_balance = closing_balance;
      direction =
          if leb_ℤ (pos 0) closing_balance
          then normal_side a.account_type
          else other_side (normal_side a.account_type);
    }

-- `account.opening_balance = 0; account.current_balance = 0` for the permanent accounts.
abbrev pub zeroed : ℕ → Account → Account
zeroed tenant a =
    if is_permanent tenant a
    then record a { opening_balance = pos 0; current_balance = pos 0 }
    else a

-- The two early returns, and the carry itself for the permanent accounts that were found: the number of
-- accounts carried, and the books afterwards.
unfoldable pub carry_found : ℕ → ClosingYear → Books → List Account → ℕ × Books
carry_found tenant fy b [] = (0, b)
carry_found tenant fy b (a ∷ rest) =
    let existing_count = snapshot_count tenant fy.id b.snapshots in
    if ltb 0 existing_count then (existing_count, b) else (
      length (a ∷ rest),
      record b {
        ledger =
            update_account_balances tenant (some (account_ids (a ∷ rest)))
              (record b.ledger { accounts = map (zeroed tenant) b.ledger.accounts });
        snapshots =
            b.snapshots
            ++ map (snapshot_of tenant fy (year_lines tenant fy b.ledger.entries)) (a ∷ rest);
      },
    )

unfoldable pub carry_forward_balances : ℕ → ClosingYear → Books → ℕ × Books
unfolding carry_found
carry_forward_balances tenant fy b =
    carry_found tenant fy b (permanent_accounts tenant b.ledger.accounts)
