-- ===== src/Ledger/Balances.antt =====
-- What the kept balances of the accounts mean.
use bookkeeping.Base.{All, Bool, List, [], false, if◌then◌else◌, true, ℕ, ◌==◌, ◌∷◌, ◌≡◌}
use bookkeeping.Int.{int_laws, neg, pos, ℤ, ◌+ℤ◌, ◌-ℤ◌}
use bookkeeping.Ledger.Commit.{is_debit_type, line_sum, recalculated}
use bookkeeping.Ledger.Tables.{Account, AccountType, JournalLine, Ledger, journal_lines}
use bookkeeping.Posting.Draft.{Direction, credit, debit}
use bookkeeping.Posting.Effect.{moved, on, signed}

-- Debits less credits of one account.
abbrev pub is : ℕ → ℕ → Bool
is a b = b == a

line_sums :
    (a : ℕ) (ls : List JournalLine) → line_sum debit a ls -ℤ line_sum credit a ls ≡ moved (is a) ls
unfolding line_sum moved
line_sums a [] = omega int_laws
line_sums a (l ∷ ls) = rw (← line_sums a ls) (sides (l.account_id == a) l.direction l.amount _ _)
  where
    sides :
        (b : Bool) (d : Direction) (x D C : ℤ)
        → (if b then elim d [ debit ↦ x | credit ↦ pos 0 ] else pos 0)
            +ℤ D
            -ℤ ((if b then elim d [ debit ↦ pos 0 | credit ↦ x ] else pos 0) +ℤ C)
          ≡ signed d (on b x) +ℤ (D -ℤ C)
    sides true debit x D C = omega int_laws
    sides true credit x D C = omega int_laws
    sides false debit x D C = omega int_laws
    sides false credit x D C = omega int_laws

-- The sign with which debits count for a type of account.
abbrev pub natural : AccountType → ℤ → ℤ
natural t x = if is_debit_type t then x else neg x

pub recalculated-moved :
    (ls : List JournalLine) (a : Account)
    → recalculated ls a ≡ a.opening_balance +ℤ natural a.account_type (moved (is a.id) ls)
unfolding recalculated
recalculated-moved ls a = rw (← line_sums a.id ls) (split (is_debit_type a.account_type) _ _ _)
  where
    split :
        (b : Bool) (o D C : ℤ)
        → (if b then o +ℤ D -ℤ C else o +ℤ C -ℤ D) ≡ o +ℤ (if b then D -ℤ C else neg (D -ℤ C))
    split true o D C = omega int_laws
    split false o D C = omega int_laws

-- The kept balance of a live account is its opening balance and its lines.
abbrev pub AgreesWith : List JournalLine → Account → Type 0
AgreesWith ls a =
    a.deleted ≡ false
    → a.current_balance ≡ a.opening_balance +ℤ natural a.account_type (moved (is a.id) ls)

pub record Agrees (db : Ledger) : Type 0 where
  pub kept : All (AgreesWith (journal_lines db.entries)) db.accounts
