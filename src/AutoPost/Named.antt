-- ===== src/AutoPost/Named.antt =====
-- The lines of an invoice and of a bill go to accounts of the tenant.
use bookkeeping.Accounts.Resolver.{is_live}
use bookkeeping.Accounts.ResolverLaws.{Owned}
use bookkeeping.AutoPost.Owned.{AllOwned, document_list, option_list}
use bookkeeping.AutoPost.Resolution.{DocumentAccounts}
use bookkeeping.AutoPost.Sound.{AllOwned-append, AllOwned-parts, all_named, named_by}
use bookkeeping.Base.{
  All, Bool, Bool-cases, List, [], ap, arith, false, if◌then◌else◌, inl, inr, refl, some, sym, true,
  ℕ, ◌++◌, ◌==◌, ◌∷◌, ◌≡◌,
}
use bookkeeping.Int.{eqb_ℤ, ltb_ℤ, pos, ℤ}
use bookkeeping.Ledger.Commit.{account_ids, line_accounts}
use bookkeeping.Ledger.Invariant.{OwnLines}
use bookkeeping.Ledger.Tables.{Account, JournalLine, member}
use bookkeeping.Ledger.Trial.{Distinct, Unlisted}
use bookkeeping.Posting.Lines.{Append, round_off_lines}

Unlisted-other {κ} :
    (P : Account → Type κ) (id : ℕ) (accounts : List Account)
    → Unlisted id (account_ids accounts)
    → All (λ a. a.id == id ≡ true → P a) accounts
Unlisted-other P id [] u = tt
Unlisted-other P id (a ∷ rest) u =
    let other : (a.id == id) ≡ false = ground arith in
    ((λ h. absurd (ground (arith, h, other))), Unlisted-other P id rest (ground arith))

Owned-member :
    (tenant id : ℕ) (accounts : List Account)
    → Owned tenant id accounts
    → member id (account_ids accounts) ≡ true
Owned-member tenant id [] h = cc
Owned-member tenant id (a ∷ rest) h = elim (Bool-cases (is_live tenant id a)) [
  | inl here_it_is ↦ ground arith
  | inr later_on ↦ ground (arith, Owned-member tenant id rest)
]

-- Where identifiers are distinct, an account that has the identifier of one of the tenant's is it.
Owned-unique :
    (tenant id : ℕ) (accounts : List Account)
    → Distinct (account_ids accounts)
    → Owned tenant id accounts
    → All (λ a. a.id == id ≡ true → a.tenant_id ≡ tenant) accounts
Owned-unique tenant id [] d h = tt
Owned-unique tenant id (a ∷ rest) d h = elim (Bool-cases (is_live tenant id a)) [
  | inl first_one ↦
      let e : a.id ≡ id = ground arith in
      (
        (λ same_one. ground arith),
        Unlisted-other (λ b. b.tenant_id ≡ tenant) id rest (rw (← e) d.0),
      )
  | inr later_on ↦
      let own : Owned tenant id rest = ground arith in
      let listed = Owned-member tenant id rest own in
      (
        (λ same_one.
            let e : a.id ≡ id = ground arith in
            let twice : member a.id (account_ids rest) ≡ true = rw e listed in
            absurd (ground (arith, twice, d.0))),
        Owned-unique tenant id rest d.1 own,
      )
]

both_listed :
    (tenant id : ℕ) (ids : List ℕ) (accounts : List Account)
    → All (λ a. a.id == id ≡ true → a.tenant_id ≡ tenant) accounts
    → All (λ a. member a.id ids ≡ true → a.tenant_id ≡ tenant) accounts
    → All (λ a. member a.id (id ∷ ids) ≡ true → a.tenant_id ≡ tenant) accounts
both_listed tenant id ids [] h k = tt
both_listed tenant id ids (a ∷ rest) h k = (
  (λ m. elim (Bool-cases (a.id == id)) [
    | inl same_one ↦ h.0 same_one
    | inr other ↦ k.0 (ground arith)
  ]),
  both_listed tenant id ids rest h.1 k.1,
)

none_listed :
    (tenant : ℕ) (accounts : List Account)
    → All (λ a. member a.id [] ≡ true → a.tenant_id ≡ tenant) accounts
none_listed tenant [] = tt
none_listed tenant (a ∷ rest) = ((λ m. cc), none_listed tenant rest)

AllOwned-listed :
    (tenant : ℕ) (ids : List ℕ) (accounts : List Account)
    → Distinct (account_ids accounts)
    → AllOwned tenant ids accounts
    → All (λ a. member a.id ids ≡ true → a.tenant_id ≡ tenant) accounts
AllOwned-listed tenant [] accounts d own = none_listed tenant accounts
AllOwned-listed tenant (id ∷ ids) accounts d own =
    both_listed tenant id ids accounts (Owned-unique tenant id accounts d own.0)
      (AllOwned-listed tenant ids accounts d own.1)

pub AllOwned-OwnLines :
    (tenant : ℕ) (ls : List JournalLine) (accounts : List Account)
    → Distinct (account_ids accounts)
    → AllOwned tenant (line_accounts ls) accounts
    → OwnLines tenant ls accounts
AllOwned-OwnLines tenant ls accounts d own =
    AllOwned-listed tenant (line_accounts ls) accounts d own

all_named-append : (ss ts : List Append) → all_named (ss ++ ts) ≡ all_named ss ++ all_named ts
all_named-append [] ts = refl
all_named-append (s ∷ ss) ts =
    rw (all_named-append ss ts) (sym (append_assoc (named_by s) (all_named ss) (all_named ts)))
  where
    append_assoc : (xs ys zs : List ℕ) → (xs ++ ys) ++ zs ≡ xs ++ (ys ++ zs)
    append_assoc [] ys zs = refl
    append_assoc (x ∷ xs) ys zs = ap (λ l. x ∷ l) (append_assoc xs ys zs)

-- Every account of a document is a live one of the tenant.
pub record Shares (tenant : ℕ) (accounts : List Account) (a : DocumentAccounts) : Type 0 where
  pub tcs : AllOwned tenant (option_list a.tcs) accounts
  pub tds : AllOwned tenant (option_list a.tds) accounts
  pub round_off : Owned tenant a.tax.round_off accounts
  pub cess : Owned tenant a.tax.cess accounts
  pub utgst : Owned tenant a.tax.utgst accounts
  pub igst : Owned tenant a.tax.igst accounts
  pub sgst : Owned tenant a.tax.sgst accounts
  pub cgst : Owned tenant a.tax.cgst accounts
  pub subject : Owned tenant a.subject accounts
  pub party : Owned tenant a.party accounts

module _ (tenant : ℕ) (accounts : List Account) where
  pub all_named-owned :
      (ss ts : List Append)
      → AllOwned tenant (all_named ss) accounts
      → AllOwned tenant (all_named ts) accounts
      → AllOwned tenant (all_named (ss ++ ts)) accounts
  all_named-owned ss ts h k =
      rw (all_named-append ss ts)
        (AllOwned-append tenant (all_named ss) (all_named ts) accounts h k)

  pub round_off_lines-owned :
      (r : ℕ) (x : ℤ) (up down : ℕ → List Append)
      → AllOwned tenant (all_named (up r)) accounts
      → AllOwned tenant (all_named (down r)) accounts
      → AllOwned tenant (all_named (round_off_lines (some r) x up down)) accounts
  unfolding round_off_lines
  round_off_lines-owned r x up down h k = go (eqb_ℤ x (pos 0)) (ltb_ℤ (pos 0) x)
    where
      go :
          (b c : Bool)
          → AllOwned tenant (all_named (if b then [] else if c then up r else down r)) accounts
      go true c = tt
      go false true = h
      go false false = k

  pub document_list-Shares :
      (a : DocumentAccounts) → AllOwned tenant (document_list a) accounts → Shares tenant accounts a
  document_list-Shares a h =
      let (tcs, h1) = AllOwned-parts tenant (option_list a.tcs) _ accounts h in
      let (tds, h2) = AllOwned-parts tenant (option_list a.tds) _ accounts h1 in
      record {
        tcs = tcs;
        tds = tds;
        round_off = h2.0;
        cess = h2.1.0;
        utgst = h2.1.1.0;
        igst = h2.1.1.1.0;
        sgst = h2.1.1.1.1.0;
        cgst = h2.1.1.1.1.1.0;
        subject = h2.1.1.1.1.1.1.0;
        party = h2.1.1.1.1.1.1.1.0;
      }
