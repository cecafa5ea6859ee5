-- ===== src/Periods/LockLaws.antt =====
-- Exactly which dates are open.
use bookkeeping.Base.{
  Bool, List, Option-cases, Result, [], any_of, arith, err, false, inl, inr, is_some, leb, not, ok,
  refl, some, true, ℕ, ◌&&◌, ◌+◌, ◌||◌, ◌∷◌, ◌≡◌,
}
use bookkeeping.Periods.Lock.{
  AccountingPeriod, FinancialYear, PeriodError, check_boundary, closed_period, closing_year,
  current_year, first, locked_year, max_future_days, validate_period_open, year_covers,
}

pub first-any_of {ℓ} :
    {A : Type ℓ} (test : A → Bool) (xs : List A) → is_some (first test xs) ≡ any_of test xs
unfolding first
first-any_of test [] = refl
first-any_of test (x ∷ xs) = ground (arith, first-any_of test xs)

pub first-passes {ℓ} :
    {A : Type ℓ} (test : A → Bool) (xs : List A) {x : A} → first test xs ≡ some x → test x ≡ true
unfolding first
first-passes test [] h = cc
first-passes test (y ∷ xs) {x} h = ground (arith, first-passes test xs {x = x})

-- What is found first by one test fails another that nothing passes.
first-fails {ℓ} :
    {A : Type ℓ} (found test : A → Bool) (xs : List A) {x : A}
    → first found xs ≡ some x
    → any_of test xs ≡ false
    → test x ≡ false
unfolding first
first-fails found test [] h n = cc
first-fails found test (y ∷ xs) {x} h n = ground (arith, first-fails found test xs {x = x})

-- The date is covered by a year, or no year is current, or the current year covers it. In the last
-- case the first alternative holds too.
abbrev pub is_placed : List FinancialYear → ℕ → ℕ → Bool
is_placed years tenant date =
    any_of (year_covers tenant date) years || not (any_of (current_year tenant) years)

abbrev pub is_open : List FinancialYear → List AccountingPeriod → ℕ → ℕ → ℕ → Bool
is_open years periods today tenant date =
    leb date (today + max_future_days)
    && not (any_of (closing_year tenant date) years)
    && not (any_of (locked_year tenant date) years)
    && is_placed years tenant date
    && not (any_of (closed_period tenant date) periods)

abbrev pub accepted : Result PeriodError (Unit {0}) → Bool
accepted (ok u) = true
accepted (err e) = false

-- A year that is current covers no date that no year covers.
boundary_refuses :
    (years : List FinancialYear) (tenant date : ℕ)
    → accepted (
        check_boundary date
          (first (year_covers tenant date) years)
          (first (current_year tenant) years))
      ≡ is_placed years tenant date
unfolding year_covers
boundary_refuses years tenant date =
    let covered = first-any_of (year_covers tenant date) years in
    let current = first-any_of (current_year tenant) years in
    elim (Option-cases (first (year_covers tenant date) years)) [
      | inr (y, found) ↦ ground arith
      | inl missing ↦ elim (Option-cases (first (current_year tenant) years)) [
        | inl none_current ↦ ground arith
        | inr (y, found) ↦
            let own = first-passes (current_year tenant) years found in
            let outside =
              first-fails (current_year tenant) (year_covers tenant date) years found
                (ground arith) in
            ground arith
      ]
    ]

-- A date is accepted exactly where it lies at most thirty days ahead, no year of the tenant that
-- covers it is being closed, locked or archived, some year of the tenant covers it or none is current,
-- and no closed period of the tenant covers it.
pub validate_period_open_iff :
    (years : List FinancialYear) (periods : List AccountingPeriod) (today tenant date : ℕ)
    → accepted (validate_period_open years periods today tenant date)
      ≡ is_open years periods today tenant date
unfolding validate_period_open
validate_period_open_iff years periods today tenant date = ground (
  arith,
  first-any_of (closing_year tenant date) years,
  first-any_of (locked_year tenant date) years,
  first-any_of (closed_period tenant date) periods,
  boundary_refuses years tenant date,
)
