-- ===== src/Tests/PeriodTests.antt =====
-- A year with a closed quarter, and dates in and outside it.
use bookkeeping.Base.{List, [], false, refl, true, ◌∷◌, ◌≡◌}
use bookkeeping.Periods.Lock.{
  AccountingPeriod, FinancialYear, covers, current, first, validate_period_open, year_covers,
}
use bookkeeping.Periods.LockLaws.{accepted, is_open, validate_period_open_iff}

abbrev years : List FinancialYear
years =
    record {
      id = 1;
      tenant_id = 1;
      name = "2024-25";
      start_date = 19_814;
      end_date = 20_178;
      status = current;
      is_current = true;
    }
    ∷ []

abbrev periods : List AccountingPeriod
periods =
    record {
      tenant_id = 1;
      period_name = "Q1";
      start_date = 19_814;
      end_date = 19_904;
      is_closed = true;
    }
    ∷ []

open_day : accepted (validate_period_open years periods 20_000 1 19_950) ≡ true
unfolding validate_period_open first year_covers covers
open_day = refl

closed_day : accepted (validate_period_open years periods 20_000 1 19_850) ≡ false
unfolding validate_period_open first year_covers covers
closed_day = refl

validate_period_open_iff_example :
    accepted (validate_period_open years periods 20_000 1 19_950)
    ≡ is_open years periods 20_000 1 19_950
validate_period_open_iff_example = validate_period_open_iff years periods 20_000 1 19_950
