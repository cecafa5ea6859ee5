-- ===== src/Posting/Effect.antt =====
-- What a list of journal lines does to the accounts, and what a list of appends will do. `sel`
-- chooses accounts: one account, or all of them for the balance of the entry.
use bookkeeping.Base.{
  Bool, List, Option, [], arith, bind-ok, if◌then◌else◌, none, ok, ok-injective, some, ℕ, ◌++◌, ◌∷◌,
  ◌≡◌,
}
use bookkeeping.Int.{add-zero, int_laws, ltb_ℤ, neg, neg-zero, pos, ℤ, ◌+ℤ◌}
use bookkeeping.Money.{quantize}
use bookkeeping.Posting.Draft.{Direction, JournalLineDraft, credit, debit, line_draft}
use bookkeeping.Posting.Lines.{Append, always, append, build, charged, positive}

-- Debits count as they are, credits with their sign turned.
abbrev pub signed : Direction → ℤ → ℤ
signed debit x = x
signed credit x = neg x

abbrev pub on : Bool → ℤ → ℤ
on b x = if b then x else pos 0

unfoldable pub moved : (ℕ → Bool) → List JournalLineDraft → ℤ
moved sel [] = pos 0
moved sel (l ∷ ls) = signed l.direction (on (sel l.account_id) l.amount) +ℤ moved sel ls

-- The amounts that the three kinds of append put on the selected accounts.
unfoldable pub fixed : (ℕ → Bool) → ℕ → ℤ → ℤ
fixed sel a x = on (sel a) (quantize x)

unfoldable pub surplus : (ℕ → Bool) → ℕ → ℤ → ℤ
surplus sel a x = if ltb_ℤ (pos 0) x then on (sel a) (quantize x) else pos 0

unfoldable pub charge : (ℕ → Bool) → Option ℕ → ℤ → ℤ
charge sel none x = pos 0
charge sel (some a) x = if ltb_ℤ (pos 0) x then on (sel a) (quantize x) else pos 0

abbrev pub due : (ℕ → Bool) → Append → ℤ
due sel (always a x d n) = signed d (fixed sel a x)
due sel (positive a x d n) = signed d (surplus sel a x)
due sel (charged o x d n) = signed d (charge sel o x)

abbrev pub dues : (ℕ → Bool) → List Append → ℤ
dues sel [] = pos 0
dues sel (s ∷ ss) = due sel s +ℤ dues sel ss

pub dues-append :
    (sel : ℕ → Bool) (ss ts : List Append) → dues sel (ss ++ ts) ≡ dues sel ss +ℤ dues sel ts
dues-append sel [] ts = omega int_laws
dues-append sel (s ∷ ss) ts = rw (dues-append sel ss ts) (omega int_laws)

pub moved-append :
    (sel : ℕ → Bool) (ls ms : List JournalLineDraft)
    → moved sel (ls ++ ms) ≡ moved sel ls +ℤ moved sel ms
unfolding moved
moved-append sel [] ms = omega int_laws
moved-append sel (l ∷ ls) ms = rw (moved-append sel ls ms) (omega int_laws)

-- One append moves what is due.
pub append-moved :
    (sel : ℕ → Bool) (s : Append) {ls : List JournalLineDraft}
    → append s ≡ ok ls
    → moved sel ls ≡ due sel s
unfolding append line_draft moved fixed surplus charge
append-moved sel (always a x debit n) h = grind (arith, add-zero)
append-moved sel (always a x credit n) h = grind (arith, add-zero)
append-moved sel (positive a x debit n) h = grind (arith, add-zero)
append-moved sel (positive a x credit n) h = grind (arith, add-zero, neg-zero)
append-moved sel (charged none x debit n) h = grind (arith, add-zero)
append-moved sel (charged none x credit n) h = grind (arith, add-zero, neg-zero)
append-moved sel (charged (some a) x debit n) h = grind (arith, add-zero)
append-moved sel (charged (some a) x credit n) h = grind (arith, add-zero, neg-zero)

-- A successful `build` ends with what its appends made.
pub build-cons :
    (s : Append) (ss : List Append) {ls : List JournalLineDraft}
    → build (s ∷ ss) ≡ ok ls
    → (l : List JournalLineDraft) × (rest : List JournalLineDraft) × (append s ≡ ok l)
      × (build ss ≡ ok rest)
      × (l ++ rest ≡ ls)
unfolding build
build-cons s ss h =
    let (l, p, h') = bind-ok (append s) _ h in
    let (rest, q, e) = bind-ok (build ss) _ h' in (l, rest, p, q, ok-injective e)

-- The lines of a successful `build` move what is due.
pub build-moved :
    (sel : ℕ → Bool) (ss : List Append) {ls : List JournalLineDraft}
    → build ss ≡ ok ls
    → moved sel ls ≡ dues sel ss
unfolding moved build
build-moved sel [] h = rw (← ok-injective h)
build-moved sel (s ∷ ss) h =
    let (l, rest, p, q, e) = build-cons s ss h in
    rw (← e) (rw (moved-append sel l rest, append-moved sel s p, build-moved sel ss q))
