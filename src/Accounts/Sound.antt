-- ===== src/Accounts/Sound.antt =====
-- Adding accounts to a sound ledger.
use bookkeeping.Accounts.Resolver.{same_id}
use bookkeeping.Accounts.ResolverLaws.{Extends, added, same}
use bookkeeping.Base.{
  All, Bool-cases, List, [], any_of, ap, arith, false, inl, inr, refl, sym, true, ℕ, ◌++◌, ◌==◌,
  ◌∷◌, ◌≡◌,
}
use bookkeeping.Int.{pos}
use bookkeeping.Ledger.Commit.{account_ids, line_accounts}
use bookkeeping.Ledger.Reach.{IsSound}
use bookkeeping.Ledger.Tables.{Account, JournalEntry, JournalLine, journal_lines, member}
use bookkeeping.Ledger.Trial.{Distinct, LinesKnown, Unlisted}
use bookkeeping.Ledger.Update.{moved-absent, natural-zero}

All-right {ℓ κ} :
    {A : Type ℓ} (P : A → Type κ) (xs : List A) {x : A} → All P xs → P x → All P (xs ++ x ∷ [])
All-right P [] h p = (p, tt)
All-right P (y ∷ xs) h p = (h.0, All-right P xs h.1 p)

unused-Unlisted :
    (a : Account) (accounts : List Account)
    → any_of (same_id a) accounts ≡ false
    → Unlisted a.id (account_ids accounts)
unused-Unlisted a [] h = refl
unused-Unlisted a (b ∷ rest) h = ground (arith, unused-Unlisted a rest)

account_ids-append :
    (accounts : List Account) (a : Account)
    → account_ids (accounts ++ a ∷ []) ≡ account_ids accounts ++ a.id ∷ []
account_ids-append [] a = refl
account_ids-append (b ∷ rest) a = ap (λ ids. b.id ∷ ids) (account_ids-append rest a)

member-left : (x : ℕ) (ids : List ℕ) (y : ℕ) → member x ids ≡ true → member x (ids ++ y ∷ []) ≡ true
member-left x [] y h = cc
member-left x (z ∷ ids) y h = ground (arith, member-left x ids y)

Unlisted-append :
    (x : ℕ) (ids : List ℕ) (y : ℕ) → Unlisted x ids → x == y ≡ false → Unlisted x (ids ++ y ∷ [])
Unlisted-append x [] y h d = ground arith
Unlisted-append x (z ∷ ids) y h d = ground (arith, Unlisted-append x ids y)

Distinct-append : (ids : List ℕ) (y : ℕ) → Distinct ids → Unlisted y ids → Distinct (ids ++ y ∷ [])
Distinct-append [] y d u = (refl, tt)
Distinct-append (z ∷ ids) y d u =
    (Unlisted-append z ids y d.0 (ground arith), Distinct-append ids y d.1 (ground arith))

LinesKnown-more :
    (ids : List ℕ) (y : ℕ) (ls : List JournalLine)
    → LinesKnown ids ls
    → LinesKnown (ids ++ y ∷ []) ls
LinesKnown-more ids y [] h = tt
LinesKnown-more ids y (l ∷ ls) h =
    (member-left l.account_id ids y h.0, LinesKnown-more ids y ls h.1)

-- No line names an account that is not in the table.
known_absent :
    (ids : List ℕ) (y : ℕ) (ls : List JournalLine)
    → LinesKnown ids ls
    → Unlisted y ids
    → member y (line_accounts ls) ≡ false
known_absent ids y [] h u = refl
known_absent ids y (l ∷ ls) h u = elim (Bool-cases (y == l.account_id)) [
  | inl same_account ↦
      let e : y ≡ l.account_id = ground arith in
      let listed : member y ids ≡ true = rw e h.0 in ground arith
  | inr other ↦ ground (arith, known_absent ids y ls h.1 u)
]

-- An account that is new in the table leaves a sound ledger sound.
pub Extends-IsSound :
    {tenant : ℕ} {accounts after : List Account} (entries : List JournalEntry)
    → Extends tenant accounts after
    → IsSound (record { accounts = accounts; entries = entries })
    → IsSound (record { accounts = after; entries = entries })
Extends-IsSound entries same h = h
Extends-IsSound {accounts = accounts} entries (added a unused blank) h =
    let unlisted = unused-Unlisted a accounts unused in
    let still =
      moved-absent a.id (journal_lines entries)
        (known_absent (account_ids accounts) a.id (journal_lines entries) h.known unlisted) in
    record {
      agrees = record {
        kept = All-right _ accounts h.agrees.kept (λ live.
            rw (blank.current, blank.opening, still) (sym (natural-zero a.account_type (pos 0))));
      };
      balanced = h.balanced;
      known = rw (account_ids-append accounts a) (LinesKnown-more _ a.id _ h.known);
      distinct = rw (account_ids-append accounts a) (Distinct-append _ a.id h.distinct unlisted);
      live = All-right _ accounts h.live blank.undeleted;
    }
