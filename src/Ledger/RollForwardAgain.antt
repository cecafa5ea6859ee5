-- ===== src/Ledger/RollForwardAgain.antt =====
-- The balances of a year that are carried forward again.
use bookkeeping.Base.{
  Bool-cases, List, List-cases, [], arith, inl, inr, ltb, map, refl, ℕ, ◌++◌, ◌<◌, ◌∷◌, ◌≡◌,
}
use bookkeeping.Ledger.RollForward.{
  Books, ClosingYear, OpeningBalanceSnapshot, carry_forward_balances, carry_found,
  permanent_accounts, snapshot_count, snapshot_of, year_lines,
}
use bookkeeping.Ledger.Tables.{Account, JournalLine}

counted :
    (tenant : ℕ) (fy : ClosingYear) (ls : List JournalLine) (a : Account)
    (old rest : List OpeningBalanceSnapshot)
    → 0 < snapshot_count tenant fy.id (old ++ snapshot_of tenant fy ls a ∷ rest)
unfolding snapshot_of
counted tenant fy ls a [] rest = ground arith
counted tenant fy ls a (s ∷ old) rest = ground (arith, counted tenant fy ls a old rest)

-- Once a year has its snapshots, nothing more is done for it.
carry_found_again :
    (tenant : ℕ) (fy : ClosingYear) (b : Books) (a : Account) (rest found : List Account)
    → let once = (carry_found tenant fy b (a ∷ rest)).1 in
      (carry_found tenant fy once found).1 ≡ once
unfolding carry_found
carry_found_again tenant fy b a rest [] = refl
carry_found_again tenant fy b a rest (c ∷ found) =
    elim (Bool-cases (ltb 0 (snapshot_count tenant fy.id b.snapshots))) [
      | inl done ↦ ground arith
      | inr fresh ↦
          let again =
            counted tenant fy (year_lines tenant fy b.ledger.entries) a b.snapshots
              (map (snapshot_of tenant fy (year_lines tenant fy b.ledger.entries)) rest) in
          ground arith
    ]

-- `carry_forward_balances` that is run a second time for a year, while the snapshots of the first run
-- stand, leaves the ledger and the snapshots as the first run left them.
pub carry_forward_idempotent :
    (tenant : ℕ) (fy : ClosingYear) (b : Books)
    → let once = (carry_forward_balances tenant fy b).1 in
      (carry_forward_balances tenant fy once).1 ≡ once
unfolding carry_forward_balances
carry_forward_idempotent tenant fy b =
    elim (List-cases (permanent_accounts tenant b.ledger.accounts)) [
      | inl empty ↦ rw empty (rw empty refl)
      | inr (a, rest, found) ↦ rw found (carry_found_again tenant fy b a rest _)
    ]
