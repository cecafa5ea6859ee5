-- ===== src/Ledger/Invariant.antt =====
-- The invariants of the stored ledger, and that committing drafts keeps them.
use bookkeeping.Base.{
  All, Bool, Bool-cases, List, Option, [], ap, arith, bind-ok, false, inl, inr, map, not, ok,
  ok-injective, refl, some, sym, true, ℕ, ◌&&◌, ◌++◌, ◌==◌, ◌∙◌, ◌∷◌, ◌≡◌,
}
use bookkeeping.Int.{int_laws, pos, ◌+ℤ◌}
use bookkeeping.Ledger.Balances.{Agrees, AgreesWith, recalculated-moved}
use bookkeeping.Ledger.Commit.{
  PostingContext, account_ids, commit_ledger_draft, entry_of, flush_entry, flush_lines,
  line_accounts, recalculate, recalculated,
}
use bookkeeping.Ledger.Tables.{Account, JournalEntry, JournalLine, Ledger, journal_lines, member}
use bookkeeping.Ledger.Update.{
  bumped, journal_lines-snoc, moved-absent, natural-zero, recalculate_bumps, recalculated_grown,
  update-entries, update_accounts,
}
use bookkeeping.Posting.Draft.{JournalEntryDraft}
use bookkeeping.Posting.Effect.{moved}
use bookkeeping.Posting.Outcome.{all_accounts}

-- The debits of all lines equal their credits.
abbrev pub Balanced : Ledger → Type 0
Balanced db = moved all_accounts (journal_lines db.entries) ≡ pos 0

-- The lines of a draft go to accounts of the tenant.
abbrev pub OwnLines : ℕ → List JournalLine → List Account → Type 0
OwnLines tenant ls = All (λ a. member a.id (line_accounts ls) ≡ true → a.tenant_id ≡ tenant)

All-bumped :
    (tenant : ℕ) (old new ls : List JournalLine) (accounts : List Account)
    → ((sel : ℕ → Bool) → moved sel new ≡ moved sel old +ℤ moved sel ls)
    → All (AgreesWith old) accounts
    → map (recalculate tenant (some (line_accounts ls)) new) accounts
      ≡ map (bumped tenant ls) accounts
All-bumped tenant old new ls [] grow h = refl
All-bumped tenant old new ls (a ∷ rest) grow h =
    rw (recalculate_bumps tenant old new ls a grow h.0, All-bumped tenant old new ls rest grow h.1)

bumped-AgreesWith :
    (tenant : ℕ) (old new ls : List JournalLine) (a : Account)
    → ((sel : ℕ → Bool) → moved sel new ≡ moved sel old +ℤ moved sel ls)
    → AgreesWith old a
    → (member a.id (line_accounts ls) ≡ true → a.tenant_id ≡ tenant)
    → AgreesWith new (bumped tenant ls a)
bumped-AgreesWith tenant old new ls a grow h own =
    elim (Bool-cases (a.tenant_id == tenant && not a.deleted)) [
      | inl selected ↦
          rw selected
            (λ live. sym (recalculated_grown old new ls a grow h live) ∙ recalculated-moved new a)
      | inr other ↦ rw other (λ live.
          let absent : member a.id (line_accounts ls) ≡ false = ground arith in
          let still : recalculated new a ≡ a.current_balance =
            recalculated_grown old new ls a grow h live
            ∙ rw (moved-absent a.id ls absent) (natural-zero a.account_type a.current_balance) in
          sym still ∙ recalculated-moved new a)
    ]

All-AgreesWith :
    (tenant : ℕ) (old new ls : List JournalLine) (accounts : List Account)
    → ((sel : ℕ → Bool) → moved sel new ≡ moved sel old +ℤ moved sel ls)
    → All (AgreesWith old) accounts
    → OwnLines tenant ls accounts
    → All (AgreesWith new) (map (bumped tenant ls) accounts)
All-AgreesWith tenant old new ls [] grow h own = tt
All-AgreesWith tenant old new ls (a ∷ rest) grow h own = (
  bumped-AgreesWith tenant old new ls a grow h.0 own.0,
  All-AgreesWith tenant old new ls rest grow h.1 own.1,
)

module _ (ctx : PostingContext) (tenant : ℕ) (draft : JournalEntryDraft) (actor : Option ℕ)
    (db : Ledger) {entry : JournalEntry} {after : Ledger}
    (done : commit_ledger_draft ctx tenant draft actor db ≡ ok (entry, after)) where
  pub commit_inversion :
      (after.entries ≡ db.entries ++ entry ∷ [])
      × (entry.lines ≡ draft.lines)
      × (after.accounts
          ≡ map
              (recalculate tenant (some (line_accounts draft.lines)) (journal_lines after.entries))
              db.accounts)
  unfolding commit_ledger_draft entry_of
  commit_inversion =
      let (w, unique, flushed) =
        bind-ok (flush_entry db.entries (entry_of ctx draft actor)) _ done in
      let (u, f, q) = bind-ok (flush_lines (account_ids db.accounts) draft.lines) _ flushed in
      let made = ap (λ (t : JournalEntry × Ledger). t.0) (ok-injective q) in
      let stored = ap (λ (t : JournalEntry × Ledger). t.1) (ok-injective q) in
      let with_entry : Ledger = record db {
        entries = db.entries ++ entry_of ctx draft actor ∷ [];
      } in
      let kept = update-entries tenant (line_accounts draft.lines) with_entry in
      (
        rw (← stored) (rw kept (rw (← made) refl)),
        rw (← made) refl,
        rw (← stored) (rw kept (update_accounts tenant (line_accounts draft.lines) with_entry)),
      )

  commit-grows :
      (sel : ℕ → Bool)
      → moved sel (journal_lines after.entries)
        ≡ moved sel (journal_lines db.entries) +ℤ moved sel draft.lines
  commit-grows sel =
      rw (commit_inversion.0, ← commit_inversion.1) (journal_lines-snoc db.entries entry sel)

  -- Where a draft is committed to a ledger whose kept balances are right, recalculating the balances
  -- of the accounts that it names comes to the same as adding to each live account of the tenant what
  -- the lines of the draft move on it.
  pub commit_increments : Agrees db → after.accounts ≡ map (bumped tenant draft.lines) db.accounts
  commit_increments h =
      commit_inversion.2
      ∙ All-bumped tenant (journal_lines db.entries) (journal_lines after.entries) draft.lines
          db.accounts commit-grows h.kept

  -- Where a draft whose lines go to accounts of the tenant is committed to a ledger whose kept balances
  -- are right, the kept balances are right afterwards: each live account holds its opening balance
  -- and what all lines move on it.
  pub commit-Agrees : Agrees db → OwnLines tenant draft.lines db.accounts → Agrees after
  commit-Agrees h own = record {
    kept = rw (commit_increments h) (
        All-AgreesWith tenant (journal_lines db.entries) (journal_lines after.entries) draft.lines
          db.accounts commit-grows h.kept own);
  }

  -- A balanced draft keeps the ledger balanced.
  pub commit-Balanced : moved all_accounts draft.lines ≡ pos 0 → Balanced db → Balanced after
  commit-Balanced h b = rw (commit-grows all_accounts, h, b) (omega int_laws)
