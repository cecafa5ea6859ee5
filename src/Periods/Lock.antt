-- ===== src/Periods/Lock.antt =====
-- `validate_period_open` (backend/src/domains/accounting/period_lock.py). A date is its day number.
-- A query with `first()` and no order is read in the order of the table.
use bookkeeping.Base.{
  Bool, List, Option, Result, String, [], err, false, if◌then◌else◌, leb, ltb, none, ok, raise_if,
  some, true, ℕ, ◌&&◌, ◌+◌, ◌==◌, ◌>>◌, ◌∷◌,
}

pub data YearStatus : Type 0 where
  current ready_to_close locked archived : YearStatus

pub record FinancialYear : Type 0 where
  pub id : ℕ
  pub tenant_id : ℕ
  pub name : String
  pub start_date : ℕ
  pub end_date : ℕ
  pub status : YearStatus
  pub is_current : Bool

pub record AccountingPeriod : Type 0 where
  pub tenant_id : ℕ
  pub period_name : String
  pub start_date : ℕ
  pub end_date : ℕ
  pub is_closed : Bool

-- The refusals, with the name of the year or period where the message has one.
pub data PeriodError : Type 0 where
  too_far_ahead : PeriodError
  being_closed year_locked before_current after_current period_closed : String → PeriodError

abbrev pub max_future_days : ℕ
max_future_days = 30

unfoldable pub covers : ℕ → ℕ → ℕ → Bool
covers start finish date = leb start date && leb date finish

unfoldable pub year_covers : ℕ → ℕ → FinancialYear → Bool
unfolding covers
year_covers tenant date y = y.tenant_id == tenant && covers y.start_date y.end_date date

abbrev pub is_ready_to_close : YearStatus → Bool
is_ready_to_close ready_to_close = true
is_ready_to_close _ = false

abbrev pub is_locked : YearStatus → Bool
is_locked locked = true
is_locked archived = true
is_locked _ = false

-- `query.filter(test).first()`
unfoldable pub first {ℓ} : {A : Type ℓ} → (A → Bool) → List A → Option A
first test [] = none
first test (x ∷ xs) = if test x then some x else first test xs

abbrev pub closing_year : ℕ → ℕ → FinancialYear → Bool
closing_year tenant date y = is_ready_to_close y.status && year_covers tenant date y

abbrev pub locked_year : ℕ → ℕ → FinancialYear → Bool
locked_year tenant date y = is_locked y.status && year_covers tenant date y

abbrev pub current_year : ℕ → FinancialYear → Bool
current_year tenant y = y.tenant_id == tenant && y.is_current

abbrev pub closed_period : ℕ → ℕ → AccountingPeriod → Bool
closed_period tenant date p =
    p.tenant_id == tenant && covers p.start_date p.end_date date && p.is_closed

-- Refuses with the name of what was found.
abbrev pub refuse {ℓ} : {A : Type ℓ} → (A → PeriodError) → Option A → Result PeriodError (Unit {0})
refuse e none = ok tt
refuse e (some x) = err (e x)

-- The boundary of the current year, where no year covers the date.
abbrev pub check_boundary :
    ℕ → Option FinancialYear → Option FinancialYear → Result PeriodError (Unit {0})
check_boundary date (some target) selected = ok tt
check_boundary date none none = ok tt
check_boundary date none (some y) =
    if ltb date y.start_date
    then err (before_current y.name)
    else if ltb y.end_date date
    then err (after_current y.name)
    else ok tt

-- Of the years that cover the date the one that starts last is taken, but only its being there is
-- used.
unfoldable pub validate_period_open :
    List FinancialYear → List AccountingPeriod → ℕ → ℕ → ℕ → Result PeriodError (Unit {0})
validate_period_open years periods today tenant date = do
  raise_if (ltb (today + max_future_days) date) too_far_ahead
  refuse (λ y. being_closed y.name) (first (closing_year tenant date) years)
  refuse (λ y. year_locked y.name) (first (locked_year tenant date) years)
  check_boundary date (first (year_covers tenant date) years) (first (current_year tenant) years)
  refuse (λ p. period_closed p.period_name) (first (closed_period tenant date) periods)
