-- ===== src/Ledger/Once.antt =====
-- A document is posted once: the uniqueness of the journal's sources.
use text.Mathlib.TextPositions.{eq_refl}
use bookkeeping.Base.{
  Bool, Bool-cases, List, Option, [], any_of, ap, arith, bind-ok, err, false, inl, inr, ok,
  ok-injective, refl, sym, true, ℕ, ◌++◌, ◌||◌, ◌∷◌, ◌≡◌, ◌⊎◌,
}
use bookkeeping.Ledger.Commit.{
  PostingContext, account_ids, commit_ledger_draft, duplicate_reference, duplicate_source, entry_of,
  flush_entry, flush_lines, same_reference, same_source,
}
use bookkeeping.Ledger.Invariant.{commit_inversion}
use bookkeeping.Ledger.Reach.{Reach, Step, here, next, posted}
use bookkeeping.Ledger.Tables.{JournalEntry, Ledger}
use bookkeeping.Posting.Draft.{JournalEntryDraft}

any_of-append {ℓ} :
    {A : Type ℓ} (test : A → Bool) (xs ys : List A)
    → any_of test xs ≡ true
    → any_of test (xs ++ ys) ≡ true
any_of-append test [] ys h = cc
any_of-append test (x ∷ xs) ys h = elim (Bool-cases (test x)) [
  | inl now ↦ rw now refl
  | inr not_now ↦
      let later : any_of test xs ≡ true = ground arith in
      rw (not_now, any_of-append test xs ys later) refl
]

any_of-last {ℓ} :
    {A : Type ℓ} (test : A → Bool) (xs : List A) (y : A)
    → test y ≡ true
    → any_of test (xs ++ y ∷ []) ≡ true
any_of-last test [] y h = rw h refl
any_of-last test (x ∷ xs) y h = rw (any_of-last test xs y h) (or_true (test x))
  where
    or_true : (b : Bool) → (b || true) ≡ true
    or_true true = refl
    or_true false = refl

-- The journal only grows.
Step-keeps :
    {db after : Ledger} (test : JournalEntry → Bool)
    → Step db after
    → any_of test db.entries ≡ true
    → any_of test after.entries ≡ true
Step-keeps {db} test (posted ctx tenant draft actor entry v own done) h =
    rw (commit_inversion ctx tenant draft actor db done).0
      (any_of-append test db.entries (entry ∷ []) h)

Reach-keeps :
    {db after : Ledger} (test : JournalEntry → Bool)
    → Reach db after
    → any_of test db.entries ≡ true
    → any_of test after.entries ≡ true
Reach-keeps test here h = h
Reach-keeps test (next r s) h = Step-keeps test s (Reach-keeps test r h)

committed_entry :
    (ctx : PostingContext) (tenant : ℕ) (draft : JournalEntryDraft) (actor : Option ℕ) (db : Ledger)
    {entry : JournalEntry} {after : Ledger}
    → commit_ledger_draft ctx tenant draft actor db ≡ ok (entry, after)
    → entry ≡ entry_of ctx draft actor
unfolding commit_ledger_draft
committed_entry ctx tenant draft actor db done =
    let (w, unique, flushed) = bind-ok (flush_entry db.entries (entry_of ctx draft actor)) _ done in
    let (u, f, q) = bind-ok (flush_lines (account_ids db.accounts) draft.lines) _ flushed in
    sym (ap (λ (t : JournalEntry × Ledger). t.0) (ok-injective q))

same_source_self :
    (ctx ctx' : PostingContext) (draft again : JournalEntryDraft) (actor actor' : Option ℕ)
    → again.tenant_id ≡ draft.tenant_id
    → again.source_type ≡ draft.source_type
    → again.source_id ≡ draft.source_id
    → same_source (entry_of ctx' again actor') (entry_of ctx draft actor) ≡ true
unfolding entry_of
same_source_self ctx ctx' draft again actor actor' t k s =
    rw (t, k, s, eq_refl draft.source_type) (ground arith)

-- Once a document has been posted, and whatever is posted after it, another draft of the same tenant
-- for the same source type and source is refused as a duplicate.
pub commit_refuses_again :
    (ctx ctx' : PostingContext) (tenant tenant' : ℕ) (draft again : JournalEntryDraft)
    (actor actor' : Option ℕ) (db : Ledger) {entry : JournalEntry} {after later : Ledger}
    → commit_ledger_draft ctx tenant draft actor db ≡ ok (entry, after)
    → Reach after later
    → again.tenant_id ≡ draft.tenant_id
    → again.source_type ≡ draft.source_type
    → again.source_id ≡ draft.source_id
    → (commit_ledger_draft ctx' tenant' again actor' later ≡ err duplicate_reference)
      ⊎ (commit_ledger_draft ctx' tenant' again actor' later ≡ err duplicate_source)
unfolding commit_ledger_draft flush_entry
commit_refuses_again ctx ctx' tenant tenant' draft again actor actor' db {entry} {after} {later}
      done r t k s =
    let new = entry_of ctx' again actor' in
    let there : any_of (same_source new) after.entries ≡ true =
      rw
        (
          (commit_inversion ctx tenant draft actor db done).0,
          committed_entry ctx tenant draft actor db done,
        )
        (any_of-last (same_source new) db.entries (entry_of ctx draft actor)
          (same_source_self ctx ctx' draft again actor actor' t k s)) in
    let still = Reach-keeps (same_source new) r there in
    elim (Bool-cases (any_of (same_reference new) later.entries)) [
      | inl taken ↦ inl (rw taken refl)
      | inr free ↦ inr (rw (free, still) refl)
    ]
