-- ===== src/Ledger/Update.antt =====
-- What committing a draft does to the accounts.
use bookkeeping.Base.{
  Bool, Bool-cases, List, [], ap, arith, false, if◌then◌else◌, inl, inr, map, not, refl, some, sym,
  true, ℕ, ◌&&◌, ◌++◌, ◌==◌, ◌∷◌, ◌≡◌,
}
use bookkeeping.Int.{int_laws, neg, pos, ℤ, ◌+ℤ◌}
use bookkeeping.Ledger.Balances.{AgreesWith, is, natural, recalculated-moved}
use bookkeeping.Ledger.Commit.{
  is_debit_type, is_selected, line_accounts, recalculate, recalculated, update_account_balances,
}
use bookkeeping.Ledger.Tables.{
  Account, AccountType, JournalEntry, JournalLine, Ledger, journal_lines, member,
}
use bookkeeping.Posting.Draft.{Direction, credit, debit}
use bookkeeping.Posting.Effect.{moved, moved-append, signed}

pub journal_lines-snoc :
    (es : List JournalEntry) (e : JournalEntry) (sel : ℕ → Bool)
    → moved sel (journal_lines (es ++ e ∷ [])) ≡ moved sel (journal_lines es) +ℤ moved sel e.lines
unfolding moved
journal_lines-snoc [] e sel = rw (moved-append sel e.lines []) (unfold moved in omega int_laws)
journal_lines-snoc (d ∷ es) e sel = rw (moved-append sel d.lines (journal_lines (es ++ e ∷ []))) (
    rw (moved-append sel d.lines (journal_lines es))
      (rw (journal_lines-snoc es e sel) (omega int_laws)))

-- An account that no line names is not moved.
pub moved-absent :
    (a : ℕ) (ls : List JournalLine) → member a (line_accounts ls) ≡ false → moved (is a) ls ≡ pos 0
unfolding moved
moved-absent a [] h = refl
moved-absent a (l ∷ ls) h =
    let rest : member a (line_accounts ls) ≡ false = ground arith in
    let other : (l.account_id == a) ≡ false = ground arith in
    rw (other, moved-absent a ls rest) (none_moved l.direction)
  where
    none_moved : (d : Direction) → signed d (pos 0) +ℤ pos 0 ≡ pos 0
    none_moved debit = omega int_laws
    none_moved credit = omega int_laws

map-unselected :
    (tenant : ℕ) (ls : List JournalLine) (accounts : List Account)
    → map (recalculate tenant (some []) ls) accounts ≡ accounts
unfolding is_selected
map-unselected tenant ls [] = refl
map-unselected tenant ls (a ∷ rest) = rw (map-unselected tenant ls rest) (ground arith)

-- An unselected account keeps its balance, so the early return for an empty list is no exception.
pub update_accounts :
    (tenant : ℕ) (ids : List ℕ) (db : Ledger)
    → (update_account_balances tenant (some ids) db).accounts
      ≡ map (recalculate tenant (some ids) (journal_lines db.entries)) db.accounts
unfolding update_account_balances
update_accounts tenant [] db = sym (map-unselected tenant _ db.accounts)
update_accounts tenant (i ∷ ids) db = refl

pub update-entries :
    (tenant : ℕ) (ids : List ℕ) (db : Ledger)
    → (update_account_balances tenant (some ids) db).entries ≡ db.entries
unfolding update_account_balances
update-entries tenant [] db = refl
update-entries tenant (i ∷ ids) db = refl

-- The account after the lines `ls` of the tenant, by what they move.
abbrev pub bumped : ℕ → List JournalLine → Account → Account
bumped tenant ls a =
    if a.tenant_id == tenant && not a.deleted
    then record a {
      current_balance = a.current_balance +ℤ natural a.account_type (moved (is a.id) ls);
    }
    else a

pub recalculated_grown :
    (old new ls : List JournalLine) (a : Account)
    → ((sel : ℕ → Bool) → moved sel new ≡ moved sel old +ℤ moved sel ls)
    → AgreesWith old a
    → a.deleted ≡ false
    → recalculated new a ≡ a.current_balance +ℤ natural a.account_type (moved (is a.id) ls)
recalculated_grown old new ls a grow h live =
    rw (recalculated-moved new a, h live, grow (is a.id))
      (split (is_debit_type a.account_type) _ _ _)
  where
    split :
        (b : Bool) (o x y : ℤ)
        → o +ℤ (if b then x +ℤ y else neg (x +ℤ y))
          ≡ o +ℤ (if b then x else neg x) +ℤ (if b then y else neg y)
    split true o x y = omega int_laws
    split false o x y = omega int_laws

pub natural-zero : (t : AccountType) (x : ℤ) → x +ℤ natural t (pos 0) ≡ x
natural-zero t x = split (is_debit_type t)
  where
    split : (b : Bool) → x +ℤ (if b then pos 0 else neg (pos 0)) ≡ x
    split true = omega int_laws
    split false = omega int_laws

pub recalculate_bumps :
    (tenant : ℕ) (old new ls : List JournalLine) (a : Account)
    → ((sel : ℕ → Bool) → moved sel new ≡ moved sel old +ℤ moved sel ls)
    → AgreesWith old a
    → recalculate tenant (some (line_accounts ls)) new a ≡ bumped tenant ls a
unfolding is_selected
recalculate_bumps tenant old new ls a grow h =
    elim (Bool-cases (a.tenant_id == tenant && not a.deleted)) [
      | inr other ↦ ground arith
      | inl own ↦
          let live : a.deleted ≡ false = ground arith in
          elim (Bool-cases (member a.id (line_accounts ls))) [
            | inl named ↦
                rw (own, named)
                  (ap (λ x. record a { current_balance = x })
                    (recalculated_grown old new ls a grow h live))
            | inr absent ↦
                rw (own, absent, moved-absent a.id ls absent)
                  (ap (λ x. record a { current_balance = x })
                    (sym (natural-zero a.account_type a.current_balance)))
          ]
    ]
