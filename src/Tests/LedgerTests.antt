-- ===== src/Tests/LedgerTests.antt =====
-- A ledger of six accounts, the sale posted to it, and the year closed.
use bookkeeping.Base.{
  List, Result, [], err, false, if◌then◌else◌, map, none, ok, refl, some, true, ℕ, ◌==◌, ◌∷◌, ◌≡◌,
  ◌⊎◌,
}
use bookkeeping.Int.{abs, neg, pos, ℤ, ◌+ℤ◌, ◌-ℤ◌}
use bookkeeping.Ledger.Balances.{Agrees}
use bookkeeping.Ledger.Commit.{
  CommitError, PostingContext, account_ids, actor_of, commit_ledger_draft, duplicate_reference,
  duplicate_source, entry_of, flush_entry, flush_lines, is_selected, line_sum, recalculated,
  update_account_balances,
}
use bookkeeping.Ledger.Invariant.{OwnLines, commit-Agrees, commit_increments}
use bookkeeping.Ledger.Once.{commit_refuses_again}
use bookkeeping.Ledger.Reach.{IsSound, here, next, posted, reachable_trial_balance}
use bookkeeping.Ledger.RollForward.{
  Books, ClosingYear, carry_forward_balances, carry_found, permanent_accounts,
}
use bookkeeping.Ledger.RollForwardAgain.{carry_forward_idempotent}
use bookkeeping.Ledger.RollForwardLaws.{carry_forward_balances-without_opening, without_opening}
use bookkeeping.Ledger.Tables.{
  Account, AccountType, JournalEntry, Ledger, asset, expense, liability, revenue,
}
use bookkeeping.Ledger.Trial.{Distinct, trial_balance}
use bookkeeping.Ledger.Update.{bumped}
use bookkeeping.Posting.Draft.{side_sum, validate}
use bookkeeping.Posting.Effect.{moved}
use bookkeeping.Posting.Outcome.{all_accounts}
use bookkeeping.Tests.PostingTests.{sale_entry}

abbrev account : ℕ → AccountType → ℤ → Account
account id type opening = record {
  id = id;
  tenant_id = 1;
  name = "Account";
  code = "1000";
  account_type = type;
  account_group = none;
  opening_balance = opening;
  current_balance = opening;
  is_active = true;
  deleted = false;
}

abbrev start : Ledger
start = record {
  accounts =
      account 2 asset (pos 700_000)
      ∷ account 3 revenue (pos 0)
      ∷ account 4 expense (pos 0)
      ∷ account 5 asset (pos 0)
      ∷ account 11 liability (pos 0)
      ∷ account 12 liability (pos 0)
      ∷ [];
  entries = [];
}

start-Agrees : Agrees start
unfolding moved ◌+ℤ◌ neg
start-Agrees = record {
  kept = (λ _. refl, (λ _. refl, (λ _. refl, (λ _. refl, (λ _. refl, (λ _. refl, tt))))));
}

start-IsSound : IsSound start
unfolding moved
start-IsSound = record {
  agrees = start-Agrees;
  balanced = refl;
  known = tt;
  distinct = (refl, (refl, (refl, (refl, (refl, (refl, tt))))));
  live = (refl, (refl, (refl, (refl, (refl, (refl, tt))))));
}

abbrev context : PostingContext
context = record { session_actor = none; request_actor = some 77; channel = "api"; now = 1_000 }

abbrev committed : Result CommitError (JournalEntry × Ledger) → JournalEntry × Ledger
committed (ok r) = r
committed (err _) = (entry_of context sale_entry none, start)

abbrev stored : JournalEntry × Ledger
stored = committed (commit_ledger_draft context 1 sale_entry none start)

sale_committed : commit_ledger_draft context 1 sale_entry none start ≡ ok (stored.0, stored.1)
unfolding commit_ledger_draft flush_entry flush_lines entry_of actor_of update_account_balances
sale_committed = refl

sale_validates : validate sale_entry.lines ≡ ok tt
unfolding validate side_sum abs ◌+ℤ◌ ◌-ℤ◌
sale_validates = refl

sale_OwnLines : OwnLines 1 sale_entry.lines start.accounts
sale_OwnLines = (λ _. refl, (λ _. refl, (λ _. refl, (λ _. refl, (λ _. refl, (λ _. refl, tt))))))

sale_balanced : moved all_accounts sale_entry.lines ≡ pos 0
unfolding moved ◌+ℤ◌ neg
sale_balanced = refl

reachable_trial_balance_example : trial_balance stored.1.accounts ≡ pos 0
reachable_trial_balance_example = reachable_trial_balance start-IsSound (
    next here
      (posted context 1 sale_entry none stored.0 sale_validates sale_OwnLines sale_committed))

commit_increments_example : stored.1.accounts ≡ map (bumped 1 sale_entry.lines) start.accounts
commit_increments_example =
    commit_increments context 1 sale_entry none start sale_committed start-Agrees

commit_refuses_again_example :
    (commit_ledger_draft context 1 sale_entry none stored.1 ≡ err duplicate_reference)
    ⊎ (commit_ledger_draft context 1 sale_entry none stored.1 ≡ err duplicate_source)
commit_refuses_again_example =
    commit_refuses_again context context 1 1 sale_entry sale_entry none none start sale_committed
      here refl refl refl

stored-Agrees : Agrees stored.1
stored-Agrees =
    commit-Agrees context 1 sale_entry none start sale_committed start-Agrees sale_OwnLines

stored-Distinct : Distinct (account_ids stored.1.accounts)
unfolding commit_ledger_draft flush_entry flush_lines entry_of actor_of update_account_balances
    recalculated is_selected
stored-Distinct = (refl, (refl, (refl, (refl, (refl, (refl, tt))))))

-- The balance of the customer after the sale, and after the year is closed: the opening balance of
-- 70.00 is gone.
abbrev balance_of : ℕ → List Account → ℤ
balance_of id [] = pos 0
balance_of id (a ∷ rest) = if a.id == id then a.current_balance else balance_of id rest

customer_before : balance_of 2 stored.1.accounts ≡ pos 1_865_000
unfolding commit_ledger_draft flush_entry flush_lines entry_of actor_of update_account_balances
    recalculated is_selected line_sum ◌+ℤ◌ ◌-ℤ◌
customer_before = refl

abbrev year : ClosingYear
year = record { id = 3; start_date = 19_700; end_date = 20_100 }

abbrev books : Books
books = record { ledger = stored.1; snapshots = [] }

carry_forward_idempotent_example :
    (carry_forward_balances 1 year (carry_forward_balances 1 year books).1).1
    ≡ (carry_forward_balances 1 year books).1
carry_forward_idempotent_example = carry_forward_idempotent 1 year books

carry_forward_balances-without_opening_example :
    (carry_forward_balances 1 year books).1.ledger.accounts
    ≡ map (without_opening 1) stored.1.accounts
carry_forward_balances-without_opening_example =
    carry_forward_balances-without_opening 1 year books stored-Agrees stored-Distinct refl

customer_after :
    balance_of 2 (carry_forward_balances 1 year books).1.ledger.accounts ≡ pos 1_165_000
unfolding carry_forward_balances carry_found permanent_accounts commit_ledger_draft flush_entry
    flush_lines entry_of actor_of update_account_balances recalculated is_selected line_sum ◌+ℤ◌
    ◌-ℤ◌
customer_after = refl
