-- ===== src/AutoPost/Sound.antt =====
-- Posting a document keeps the ledger sound.
use bookkeeping.Accounts.ResolverLaws.{Owned}
use bookkeeping.AutoPost.Owned.{AllOwned, option_list}
use bookkeeping.Base.{
  Bool-cases, List, String, [], ap, bind-ok, inl, inr, none, ok, ok-injective, raise_if, refl, some,
  sym, ℕ, ◌++◌, ◌>>=◌, ◌∷◌, ◌≡◌,
}
use bookkeeping.Int.{leb_ℤ, ltb_ℤ, pos, ℤ}
use bookkeeping.Ledger.Commit.{line_accounts}
use bookkeeping.Ledger.Tables.{Account}
use bookkeeping.Posting.Draft.{
  Direction, JournalEntryDraft, JournalLineDraft, entry_draft, line_draft, nonpositive_amount,
  validate,
}
use bookkeeping.Posting.Effect.{charge}
use bookkeeping.Posting.Lines.{Append, always, append, build, charged, positive, post}

-- The accounts that an append names.
abbrev pub named_by : Append → List ℕ
named_by (always a x d n) = a ∷ []
named_by (positive a x d n) = a ∷ []
named_by (charged o x d n) = option_list o

abbrev pub all_named : List Append → List ℕ
all_named [] = []
all_named (s ∷ ss) = named_by s ++ all_named ss

pub AllOwned-append :
    (tenant : ℕ) (xs ys : List ℕ) (accounts : List Account)
    → AllOwned tenant xs accounts
    → AllOwned tenant ys accounts
    → AllOwned tenant (xs ++ ys) accounts
AllOwned-append tenant [] ys accounts h k = k
AllOwned-append tenant (x ∷ xs) ys accounts h k = (h.0, AllOwned-append tenant xs ys accounts h.1 k)

pub AllOwned-parts :
    (tenant : ℕ) (xs ys : List ℕ) (accounts : List Account)
    → AllOwned tenant (xs ++ ys) accounts
    → AllOwned tenant xs accounts × AllOwned tenant ys accounts
AllOwned-parts tenant [] ys accounts h = (tt, h)
AllOwned-parts tenant (x ∷ xs) ys accounts h =
    let (a, b) = AllOwned-parts tenant xs ys accounts h.1 in ((h.0, a), b)

line_draft_ok :
    (a : ℕ) (x : ℤ) (d : Direction) (n : String) {l : JournalLineDraft}
    → line_draft a x d n ≡ ok l
    → l.account_id ≡ a
unfolding line_draft
line_draft_ok a x d n h =
    let (u, e, f) = bind-ok (raise_if (leb_ℤ x (pos 0)) nonpositive_amount) _ h in
    ap (λ (l : JournalLineDraft). l.account_id) (sym (ok-injective f))

one_line :
    (tenant a : ℕ) (x : ℤ) (d : Direction) (n : String) (accounts : List Account)
    {ls : List JournalLineDraft}
    → Owned tenant a accounts
    → (line_draft a x d n >>= λ l. ok (l ∷ [])) ≡ ok ls
    → AllOwned tenant (line_accounts ls) accounts
one_line tenant a x d n accounts own h =
    let (l, e, f) = bind-ok (line_draft a x d n) _ h in
    rw (← ok-injective f, line_draft_ok a x d n e) (own, tt)

append-AllOwned :
    (tenant : ℕ) (s : Append) (accounts : List Account) {ls : List JournalLineDraft}
    → AllOwned tenant (named_by s) accounts
    → append s ≡ ok ls
    → AllOwned tenant (line_accounts ls) accounts
unfolding append
append-AllOwned tenant (always a x d n) accounts own h = one_line tenant a x d n accounts own.0 h
append-AllOwned tenant (positive a x d n) accounts own h = elim (Bool-cases (ltb_ℤ (pos 0) x)) [
  | inl charge ↦ one_line tenant a x d n accounts own.0 (rw charge at h)
  | inr free ↦ rw (← ok-injective (rw free at h)) tt
]
append-AllOwned tenant (charged none x d n) accounts own h = rw (← ok-injective h) tt
append-AllOwned tenant (charged (some a) x d n) accounts own h =
    elim (Bool-cases (ltb_ℤ (pos 0) x)) [
      | inl charge ↦ one_line tenant a x d n accounts own.0 (rw charge at h)
      | inr free ↦ rw (← ok-injective (rw free at h)) tt
    ]

line_accounts-append :
    (ls ms : List JournalLineDraft)
    → line_accounts (ls ++ ms) ≡ line_accounts ls ++ line_accounts ms
line_accounts-append [] ms = refl
line_accounts-append (l ∷ ls) ms = ap (λ ids. l.account_id ∷ ids) (line_accounts-append ls ms)

build-AllOwned :
    (tenant : ℕ) (ss : List Append) (accounts : List Account) {ls : List JournalLineDraft}
    → AllOwned tenant (all_named ss) accounts
    → build ss ≡ ok ls
    → AllOwned tenant (line_accounts ls) accounts
unfolding build
build-AllOwned tenant [] accounts own h = rw (← ok-injective h) tt
build-AllOwned tenant (s ∷ ss) accounts own h =
    let (a, e, h1) = bind-ok (append s) _ h in
    let (b, f, last) = bind-ok (build ss) _ h1 in
    let (own_s, own_ss) = AllOwned-parts tenant (named_by s) (all_named ss) accounts own in
    rw (← ok-injective last, line_accounts-append a b)
      (AllOwned-append tenant (line_accounts a) (line_accounts b) accounts
        (append-AllOwned tenant s accounts own_s e) (build-AllOwned tenant ss accounts own_ss f))

-- A posted draft is valid, and its lines go to the accounts that were named.
pub post-AllOwned :
    (tenant date : ℕ) (reference description source_type : String) (source : ℕ) (ss : List Append)
    (accounts : List Account) {e : JournalEntryDraft}
    → AllOwned tenant (all_named ss) accounts
    → post tenant date reference description source_type source ss ≡ ok e
    → (validate e.lines ≡ ok tt) × AllOwned tenant (line_accounts e.lines) accounts
unfolding post entry_draft
post-AllOwned tenant date reference description source_type source ss accounts own h =
    let (ls, b, h1) = bind-ok (build ss) _ h in
    let (u, v, last) = bind-ok (validate ls) _ h1 in
    rw (← ok-injective last) (v, build-AllOwned tenant ss accounts own b)
