-- ===== src/Ledger/Trial.antt =====
-- The trial balance, and the ledgers that posting can reach.
use bookkeeping.Base.{
  All, Bool, Bool-cases, List, [], ap, arith, false, if◌then◌else◌, inl, inr, refl, true, ℕ, ◌==◌,
  ◌∙◌, ◌∷◌, ◌≡◌,
}
use bookkeeping.Int.{add-zero, int_laws, neg, pos, zero-add, ℤ, ◌+ℤ◌, ◌-ℤ◌}
use bookkeeping.Ledger.Balances.{Agrees, AgreesWith, is, natural}
use bookkeeping.Ledger.Commit.{account_ids, is_debit_type}
use bookkeeping.Ledger.Invariant.{Balanced}
use bookkeeping.Ledger.Tables.{Account, JournalLine, Ledger, journal_lines, member}
use bookkeeping.Posting.Draft.{Direction, credit, debit}
use bookkeeping.Posting.Effect.{moved, on, signed}
use bookkeeping.Posting.Outcome.{all_accounts}

-- Debit balances less credit balances: what each account has moved since its opening balance.
unfoldable pub trial_balance : List Account → ℤ
trial_balance [] = pos 0
trial_balance (a ∷ rest) =
    natural a.account_type (a.current_balance -ℤ a.opening_balance) +ℤ trial_balance rest

abbrev pub Unlisted : ℕ → List ℕ → Type 0
Unlisted a ids = member a ids ≡ false

abbrev pub Distinct : List ℕ → Type 0
Distinct [] = Unit
Distinct (a ∷ rest) = Unlisted a rest × Distinct rest

-- Every line names an account of the table.
abbrev pub LinesKnown : List ℕ → List JournalLine → Type 0
LinesKnown ids = All (λ l. member l.account_id ids ≡ true)

abbrev moved_by_account : List ℕ → List JournalLine → ℤ
moved_by_account [] ls = pos 0
moved_by_account (a ∷ rest) ls = moved (is a) ls +ℤ moved_by_account rest ls

-- One line counts once among distinct accounts, and not at all where its account is not listed.
abbrev count_line : List ℕ → ℕ → ℤ → ℤ
count_line [] b x = pos 0
count_line (a ∷ rest) b x = on (b == a) x +ℤ count_line rest b x

count_line-Unlisted : (ids : List ℕ) (b : ℕ) (x : ℤ) → Unlisted b ids → count_line ids b x ≡ pos 0
count_line-Unlisted [] b x h = refl
count_line-Unlisted (a ∷ rest) b x h =
    ground (arith, count_line-Unlisted rest b x, zero-add (pos 0))

count_line-listed :
    (ids : List ℕ) (b : ℕ) (x : ℤ) → Distinct ids → member b ids ≡ true → count_line ids b x ≡ x
count_line-listed [] b x d h = cc
count_line-listed (a ∷ rest) b x d h = elim (Bool-cases (b == a)) [
  | inl same ↦
      let e : b ≡ a = ground arith in
      let unlisted : Unlisted b rest = (rw e d.0) in
      rw (same, count_line-Unlisted rest b x unlisted) (add-zero x)
  | inr other ↦
      let listed : member b rest ≡ true = ground arith in
      rw (other, count_line-listed rest b x d.1 listed) (zero-add x)
]

moved_by_account-cons :
    (ids : List ℕ) (l : JournalLine) (ls : List JournalLine)
    → moved_by_account ids (l ∷ ls)
      ≡ signed l.direction (count_line ids l.account_id l.amount) +ℤ moved_by_account ids ls
unfolding moved
moved_by_account-cons [] l ls = sides l.direction
  where
    sides : (d : Direction) → pos 0 ≡ signed d (pos 0) +ℤ pos 0
    sides debit = omega int_laws
    sides credit = omega int_laws
moved_by_account-cons (a ∷ rest) l ls =
    rw (moved_by_account-cons rest l ls) (sides l.direction _ _ _ _)
  where
    sides :
        (d : Direction) (x y m n : ℤ)
        → signed d x +ℤ m +ℤ (signed d y +ℤ n) ≡ signed d (x +ℤ y) +ℤ (m +ℤ n)
    sides debit x y m n = omega int_laws
    sides credit x y m n = omega int_laws

-- The accounts together move what the lines move.
moved_by_account-all :
    (ids : List ℕ) (ls : List JournalLine)
    → Distinct ids
    → LinesKnown ids ls
    → moved_by_account ids ls ≡ moved all_accounts ls
unfolding moved
moved_by_account-all [] [] d h = refl
moved_by_account-all (a ∷ rest) [] d h = rw (moved_by_account-all rest [] d.1 tt) (zero-add (pos 0))
moved_by_account-all ids (l ∷ ls) d h =
    rw
      (
        moved_by_account-cons ids l ls,
        count_line-listed ids l.account_id l.amount d h.0,
        moved_by_account-all ids ls d h.1,
      )
      refl

trial_balance-moved :
    (ls : List JournalLine) (accounts : List Account)
    → All (AgreesWith ls) accounts
    → All (λ a. a.deleted ≡ false) accounts
    → trial_balance accounts ≡ moved_by_account (account_ids accounts) ls
unfolding trial_balance
trial_balance-moved ls [] h live = refl
trial_balance-moved ls (a ∷ rest) h live =
    rw (trial_balance-moved ls rest h.1 live.1, h.0 live.0)
      (ap (λ x. x +ℤ moved_by_account (account_ids rest) ls)
        (natural_twice (is_debit_type a.account_type) _ _))
  where
    natural_twice :
        (b : Bool) (o x : ℤ)
        → (if b
            then o +ℤ (if b then x else neg x) -ℤ o
            else neg (o +ℤ (if b then x else neg x) -ℤ o))
          ≡ x
    natural_twice true o x = omega int_laws
    natural_twice false o x = omega int_laws

-- In a ledger whose accounts are live and distinct, whose lines name its accounts, whose kept balances
-- are right and whose lines balance, the debit balances equal the credit balances.
pub trial_balance-zero :
    (db : Ledger)
    → Agrees db
    → Balanced db
    → Distinct (account_ids db.accounts)
    → All (λ a. a.deleted ≡ false) db.accounts
    → LinesKnown (account_ids db.accounts) (journal_lines db.entries)
    → trial_balance db.accounts ≡ pos 0
trial_balance-zero db h b d live known =
    trial_balance-moved (journal_lines db.entries) db.accounts h.kept live
    ∙ moved_by_account-all (account_ids db.accounts) (journal_lines db.entries) d known
    ∙ b
