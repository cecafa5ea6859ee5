-- ===== src/Ledger/RollForwardLaws.antt =====
-- What closing a year does to the balances.
use bookkeeping.Base.{
  All, Bool-cases, List, List-cases, [], ap, arith, false, if◌then◌else◌, inl, inr, map, refl, some,
  sym, true, ℕ, ◌∙◌, ◌∷◌, ◌≡◌, ◌⊎◌,
}
use bookkeeping.Int.{int_laws, pos, zero-add, ℤ, ◌+ℤ◌, ◌-ℤ◌}
use bookkeeping.Ledger.Balances.{Agrees, AgreesWith, is, natural, recalculated-moved}
use bookkeeping.Ledger.Commit.{account_ids, is_selected, recalculate, update_account_balances}
use bookkeeping.Ledger.RollForward.{
  Books, ClosingYear, carry_forward_balances, carry_found, is_permanent, permanent_accounts,
  snapshot_count, zeroed,
}
use bookkeeping.Ledger.Tables.{Account, JournalLine, journal_lines, member}
use bookkeeping.Ledger.Trial.{Distinct}
use bookkeeping.Posting.Effect.{moved}

-- What is left of an account: a permanent one starts from nothing and holds its lines of all time.
abbrev pub carried : ℕ → List JournalLine → Account → Account
carried tenant ls a =
    if is_permanent tenant a
    then record a {
      opening_balance = pos 0;
      current_balance = natural a.account_type (moved (is a.id) ls);
    }
    else a

permanent_ids :
    (tenant : ℕ) (accounts : List Account) (i : ℕ)
    → member i (account_ids accounts) ≡ false
    → member i (account_ids (permanent_accounts tenant accounts)) ≡ false
unfolding permanent_accounts
permanent_ids tenant [] i h = refl
permanent_ids tenant (a ∷ rest) i h = ground (arith, permanent_ids tenant rest i)

-- Among distinct accounts the permanent ones are those whose identifier is listed.
abbrev Recognised : ℕ → List ℕ → Account → Type 0
Recognised tenant ids a = member a.id ids ≡ is_permanent tenant a

Recognised-cons :
    (tenant i : ℕ) (ids : List ℕ) (accounts : List Account)
    → member i (account_ids accounts) ≡ false
    → All (Recognised tenant ids) accounts
    → All (Recognised tenant (i ∷ ids)) accounts
Recognised-cons tenant i ids [] h r = tt
Recognised-cons tenant i ids (a ∷ rest) h r =
    (ground arith, Recognised-cons tenant i ids rest (ground arith) r.1)

permanent_ids_cons :
    (tenant : ℕ) (a : Account) (rest : List Account)
    → account_ids (permanent_accounts tenant (a ∷ rest)) ≡ (
        if is_permanent tenant a
        then a.id ∷ account_ids (permanent_accounts tenant rest)
        else account_ids (permanent_accounts tenant rest))
unfolding permanent_accounts
permanent_ids_cons tenant a rest = elim (Bool-cases (is_permanent tenant a)) [
  | inl p ↦ rw p refl
  | inr n ↦ rw n refl
]

Recognised-equal :
    (tenant : ℕ) {ids all : List ℕ} (accounts : List Account)
    → all ≡ ids
    → All (Recognised tenant ids) accounts
    → All (Recognised tenant all) accounts
Recognised-equal tenant [] e r = tt
Recognised-equal tenant (a ∷ rest) e r = (rw e r.0, Recognised-equal tenant rest e r.1)

Recognised-step :
    (tenant : ℕ) (a : Account) (ids all : List ℕ) (rest : List Account)
    → all ≡ (if is_permanent tenant a then a.id ∷ ids else ids)
    → member a.id ids ≡ false
    → member a.id (account_ids rest) ≡ false
    → All (Recognised tenant ids) rest
    → All (Recognised tenant all) (a ∷ rest)
Recognised-step tenant a ids all rest h absent d others =
    elim (Bool-cases (is_permanent tenant a)) [
      | inl p ↦
          let e : all ≡ a.id ∷ ids = ground arith in
          Recognised-equal tenant (a ∷ rest) e
            (ground arith, Recognised-cons tenant a.id ids rest d others)
      | inr n ↦
          let e : all ≡ ids = ground arith in
          Recognised-equal tenant (a ∷ rest) e (absent ∙ sym n, others)
    ]

permanent-Recognised :
    (tenant : ℕ) (accounts : List Account)
    → Distinct (account_ids accounts)
    → All (Recognised tenant (account_ids (permanent_accounts tenant accounts))) accounts
permanent-Recognised tenant [] d = tt
permanent-Recognised tenant (a ∷ rest) d =
    Recognised-step tenant a _ _ rest (permanent_ids_cons tenant a rest)
      (permanent_ids tenant rest a.id d.0) d.0 (permanent-Recognised tenant rest d.1)

selected-Recognised :
    (tenant : ℕ) (ids : List ℕ) (a : Account)
    → Recognised tenant ids a
    → is_selected tenant (some ids) a ≡ is_permanent tenant a
unfolding is_selected
selected-Recognised tenant ids a h = ground arith

carry_one :
    (tenant : ℕ) (ids : List ℕ) (ls : List JournalLine) (a : Account)
    → Recognised tenant ids a
    → recalculate tenant (some ids) ls (zeroed tenant a) ≡ carried tenant ls a
carry_one tenant ids ls a h = elim (Bool-cases (is_permanent tenant a)) [
  | inl p ↦
      let from_nothing = record a { opening_balance = pos 0; current_balance = pos 0 } in
      rw
        (
          p,
          selected-Recognised tenant ids from_nothing h,
          p,
          recalculated-moved ls from_nothing,
          zero-add (natural a.account_type (moved (is a.id) ls)),
        )
        refl
  | inr n ↦ rw (n, selected-Recognised tenant ids a h, n) refl
]

carry_each :
    (tenant : ℕ) (ids : List ℕ) (ls : List JournalLine) (accounts : List Account)
    → All (Recognised tenant ids) accounts
    → map (recalculate tenant (some ids) ls) (map (zeroed tenant) accounts)
      ≡ map (carried tenant ls) accounts
carry_each tenant ids ls [] h = refl
carry_each tenant ids ls (a ∷ rest) h =
    rw (carry_one tenant ids ls a h.0, carry_each tenant ids ls rest h.1) refl

-- What closing a year leaves of an account: a permanent one gives up its opening balance.
abbrev pub without_opening : ℕ → Account → Account
without_opening tenant a =
    if is_permanent tenant a
    then record a {
      opening_balance = pos 0;
      current_balance = a.current_balance -ℤ a.opening_balance;
    }
    else a

difference : (o x : ℤ) → x ≡ o +ℤ x -ℤ o
difference o x = omega int_laws

carried-without_opening :
    (tenant : ℕ) (ls : List JournalLine) (accounts : List Account)
    → All (AgreesWith ls) accounts
    → map (carried tenant ls) accounts ≡ map (without_opening tenant) accounts
carried-without_opening tenant ls [] h = refl
carried-without_opening tenant ls (a ∷ rest) h =
    rw (carried-without_opening tenant ls rest h.1)
      (ap (λ c. c ∷ map (without_opening tenant) rest) (one (Bool-cases (is_permanent tenant a))))
  where
    one :
        (is_permanent tenant a ≡ true) ⊎ (is_permanent tenant a ≡ false)
        → carried tenant ls a ≡ without_opening tenant a
    one (inl p) =
        let live : a.deleted ≡ false = ground arith in
        rw p (
          ap (λ x. record a { opening_balance = pos 0; current_balance = x })
            (difference a.opening_balance (natural a.account_type (moved (is a.id) ls))
              ∙ ap (λ x. x -ℤ a.opening_balance) (sym (h.0 live))))
    one (inr n) = rw n refl

without_permanent :
    (tenant : ℕ) (accounts : List Account)
    → All (Recognised tenant []) accounts
    → map (without_opening tenant) accounts ≡ accounts
without_permanent tenant [] h = refl
without_permanent tenant (a ∷ rest) h = rw (← h.0, without_permanent tenant rest h.1) refl

-- The first closing of a year in books whose kept balances are right: every permanent account of the tenant
-- starts the next year at nothing and keeps its balance less the opening balance that it had, and the
-- other accounts are left alone.
pub carry_forward_balances-without_opening :
    (tenant : ℕ) (fy : ClosingYear) (b : Books)
    → Agrees b.ledger
    → Distinct (account_ids b.ledger.accounts)
    → snapshot_count tenant fy.id b.snapshots ≡ 0
    → (carry_forward_balances tenant fy b).1.ledger.accounts
      ≡ map (without_opening tenant) b.ledger.accounts
unfolding carry_forward_balances carry_found update_account_balances
carry_forward_balances-without_opening tenant fy b h d fresh =
    let known = permanent-Recognised tenant b.ledger.accounts d in
    elim (List-cases (permanent_accounts tenant b.ledger.accounts)) [
      | inl empty ↦ rw empty (
          sym (
            without_permanent tenant _
              (Recognised-equal tenant _ (ap account_ids (sym empty)) known)))
      | inr (a, rest, found) ↦
          rw (found, fresh)
            (carry_each tenant _ (journal_lines b.ledger.entries) b.ledger.accounts
                (Recognised-equal tenant _ (ap account_ids (sym found)) known)
              ∙ carried-without_opening tenant _ b.ledger.accounts h.kept)
    ]
