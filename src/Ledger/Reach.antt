-- ===== src/Ledger/Reach.antt =====
-- The ledgers that posting can reach, and their soundness.
use bookkeeping.Base.{
  All, Bool, List, Option, [], ap, arith, bind-ok, false, if◌then◌else◌, map, not, ok, raise_if,
  refl, true, ℕ, ◌&&◌, ◌++◌, ◌==◌, ◌∷◌, ◌≡◌,
}
use bookkeeping.Int.{leb_ℤ, pos, ◌+ℤ◌}
use bookkeeping.Ledger.Balances.{Agrees, is, natural}
use bookkeeping.Ledger.Commit.{
  PostingContext, account_ids, commit_ledger_draft, entry_of, flush_entry, flush_lines,
  nonpositive_line, unknown_account,
}
use bookkeeping.Ledger.Invariant.{
  Balanced, OwnLines, commit-Agrees, commit-Balanced, commit_increments, commit_inversion,
}
use bookkeeping.Ledger.Tables.{Account, JournalEntry, JournalLine, Ledger, journal_lines, member}
use bookkeeping.Ledger.Trial.{Distinct, LinesKnown, trial_balance, trial_balance-zero}
use bookkeeping.Ledger.Update.{bumped}
use bookkeeping.Posting.Draft.{JournalEntryDraft, validate}
use bookkeeping.Posting.Effect.{moved}
use bookkeeping.Posting.Outcome.{validate-balanced}

-- One call of `commit_ledger_draft` with a validated draft, whose lines go to the tenant's accounts.
pub data Step (db : Ledger) : Ledger → Type 0 where
  posted :
      (ctx : PostingContext) (tenant : ℕ) (draft : JournalEntryDraft) (actor : Option ℕ)
      (entry : JournalEntry) {after : Ledger}
      → validate draft.lines ≡ ok tt
      → OwnLines tenant draft.lines db.accounts
      → commit_ledger_draft ctx tenant draft actor db ≡ ok (entry, after)
      → Step db after

pub data Reach (db : Ledger) : Ledger → Type 0 where
  here : Reach db db
  next : {mid after : Ledger} → Reach db mid → Step mid after → Reach db after

pub record IsSound (db : Ledger) : Type 0 where
  pub agrees : Agrees db
  pub balanced : Balanced db
  pub known : LinesKnown (account_ids db.accounts) (journal_lines db.entries)
  pub distinct : Distinct (account_ids db.accounts)
  pub live : All (λ a. a.deleted ≡ false) db.accounts

-- The constraints of the table hold of the rows that a flush takes in.
flush_lines-known :
    (ids : List ℕ) (ls : List JournalLine) {u : Unit {0}}
    → flush_lines ids ls ≡ ok u
    → LinesKnown ids ls
unfolding flush_lines
flush_lines-known ids [] h = tt
flush_lines-known ids (l ∷ ls) h =
    let (u, a, h') = bind-ok (raise_if (leb_ℤ l.amount (pos 0)) nonpositive_line) _ h in
    let (w, b, rest) = bind-ok (raise_if (not (member l.account_id ids)) unknown_account) _ h' in
    (ground arith, flush_lines-known ids ls rest)

LinesKnown-append :
    (ids : List ℕ) (ls ms : List JournalLine)
    → LinesKnown ids ls
    → LinesKnown ids ms
    → LinesKnown ids (ls ++ ms)
LinesKnown-append ids [] ms h k = k
LinesKnown-append ids (l ∷ ls) ms h k = (h.0, LinesKnown-append ids ls ms h.1 k)

LinesKnown-left :
    (ids : List ℕ) (ls ms : List JournalLine)
    → LinesKnown ids (ls ++ ms)
    → LinesKnown ids ls × LinesKnown ids ms
LinesKnown-left ids [] ms h = (tt, h)
LinesKnown-left ids (l ∷ ls) ms h = let (a, b) = LinesKnown-left ids ls ms h.1 in ((h.0, a), b)

journal_lines-known :
    (ids : List ℕ) (es : List JournalEntry) (e : JournalEntry)
    → LinesKnown ids (journal_lines es)
    → LinesKnown ids e.lines
    → LinesKnown ids (journal_lines (es ++ e ∷ []))
journal_lines-known ids [] e h k = LinesKnown-append ids e.lines [] k tt
journal_lines-known ids (d ∷ es) e h k =
    let (a, b) = LinesKnown-left ids d.lines (journal_lines es) h in
    LinesKnown-append ids d.lines _ a (journal_lines-known ids es e b k)

-- Posting changes no identifier and deletes nothing.
bumped-ids :
    (tenant : ℕ) (ls : List JournalLine) (accounts : List Account)
    → account_ids (map (bumped tenant ls) accounts) ≡ account_ids accounts
bumped-ids tenant ls [] = refl
bumped-ids tenant ls (a ∷ rest) =
    rw (bumped-ids tenant ls rest)
      (ap (λ i. i ∷ account_ids rest) (same (a.tenant_id == tenant && not a.deleted)))
  where
    same :
        (b : Bool)
        → (if b
            then record a {
              current_balance = a.current_balance +ℤ natural a.account_type (moved (is a.id) ls);
            }
            else a).id
          ≡ a.id
    same true = refl
    same false = refl

bumped-live :
    (tenant : ℕ) (ls : List JournalLine) (accounts : List Account)
    → All (λ a. a.deleted ≡ false) accounts
    → All (λ a. a.deleted ≡ false) (map (bumped tenant ls) accounts)
bumped-live tenant ls [] h = tt
bumped-live tenant ls (a ∷ rest) h = (ground arith, bumped-live tenant ls rest h.1)

-- Every posting keeps the ledger sound.
pub Step-IsSound : {db after : Ledger} → Step db after → IsSound db → IsSound after
unfolding commit_ledger_draft
Step-IsSound {db} {after} (posted ctx tenant draft actor entry v own done) h =
    let (w, unique, flushed) = bind-ok (flush_entry db.entries (entry_of ctx draft actor)) _ done in
    let (u, f, q) = bind-ok (flush_lines (account_ids db.accounts) draft.lines) _ flushed in
    let (stored, lines, _) = commit_inversion ctx tenant draft actor db done in
    let accounts = commit_increments ctx tenant draft actor db done h.agrees in
    let same : account_ids after.accounts ≡ account_ids db.accounts =
      rw accounts (bumped-ids tenant draft.lines db.accounts) in
    record {
      agrees = commit-Agrees ctx tenant draft actor db done h.agrees own;
      balanced =
          commit-Balanced ctx tenant draft actor db done (validate-balanced draft.lines v).1
            h.balanced;
      known = rw same (
          rw stored (
            journal_lines-known _ db.entries entry h.known
              (rw lines (flush_lines-known _ draft.lines f))));
      distinct = rw same h.distinct;
      live = rw accounts (bumped-live tenant draft.lines db.accounts h.live);
    }

pub Reach-IsSound : {db after : Ledger} → Reach db after → IsSound db → IsSound after
Reach-IsSound here h = h
Reach-IsSound (next r s) h = Step-IsSound s (Reach-IsSound r h)

-- From a sound ledger (kept balances right, entries balanced, accounts live and distinct, lines on its
-- accounts), whatever validated drafts are committed to accounts of their tenant, the debit balances
-- equal the credit balances, as moved since the opening balances.
pub reachable_trial_balance :
    {db after : Ledger} → IsSound db → Reach db after → trial_balance after.accounts ≡ pos 0
reachable_trial_balance h r =
    let s = Reach-IsSound r h in trial_balance-zero _ s.agrees s.balanced s.distinct s.live s.known
