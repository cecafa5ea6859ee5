-- ===== src/Posting/Outcome.antt =====
-- When the appends of a posting function go through, and what the entry then is.
use bookkeeping.Base.{
  All, Bool, Bool-cases, List, Result, String, [], ap, arith, bind-ok, err, if◌then◌else◌, inl, inr,
  length, length-append, none, ok, ok-injective, refl, some, suc, sym, true, ℕ, ◌++◌, ◌+◌, ◌∙◌, ◌∷◌,
  ◌≡◌, ◌≢◌, ◌≤◌,
}
use bookkeeping.Int.{abs_parts, eqb_ℤ, int_laws, ltb_ℤ, pos, ℤ, ◌+ℤ◌, ◌-ℤ◌, ◌<ℤ◌}
use bookkeeping.Money.{quantize}
use bookkeeping.Posting.Draft.{
  Direction, JournalEntryDraft, JournalLineDraft, LedgerError, credit, debit, entry_draft,
  line_draft, nonpositive_amount, out_of_balance, side_sum, too_few_lines, validate,
}
use bookkeeping.Posting.Effect.{build-cons, build-moved, dues, moved, signed}
use bookkeeping.Posting.Lines.{Append, always, append, build, charged, positive, post}

-- Every unconditional line has a positive amount.
abbrev pub ReadyStep : Append → Type 0
ReadyStep (always a x d n) = pos 0 <ℤ x
ReadyStep (positive a x d n) = Unit
ReadyStep (charged o x d n) = Unit

abbrev pub Ready : List Append → Type 0
Ready ss = All ReadyStep ss

abbrev pub fixed_count : List Append → ℕ
fixed_count [] = 0
fixed_count (always a x d n ∷ ss) = suc (fixed_count ss)
fixed_count (positive a x d n ∷ ss) = fixed_count ss
fixed_count (charged o x d n ∷ ss) = fixed_count ss

append_ready :
    (s : Append)
    → ReadyStep s
    → (ls : List JournalLineDraft) × (append s ≡ ok ls) × (fixed_count (s ∷ []) ≤ length ls)
unfolding append line_draft
append_ready (always a x d n) h = (
  record { account_id = a; amount = quantize x; direction = d; narration = n } ∷ [],
  ground arith,
  omega arith,
)
append_ready (positive a x d n) h = elim (Bool-cases (ltb_ℤ (pos 0) x)) [
  | inl p ↦ (
    record { account_id = a; amount = quantize x; direction = d; narration = n } ∷ [],
    ground arith,
    omega arith,
  )
  | inr p ↦ ([], ground arith, omega arith)
]
append_ready (charged none x d n) h = ([], refl, omega arith)
append_ready (charged (some a) x d n) h = elim (Bool-cases (ltb_ℤ (pos 0) x)) [
  | inl p ↦ (
    record { account_id = a; amount = quantize x; direction = d; narration = n } ∷ [],
    ground arith,
    omega arith,
  )
  | inr p ↦ ([], ground arith, omega arith)
]

append-ReadyStep : (s : Append) {ls : List JournalLineDraft} → append s ≡ ok ls → ReadyStep s
unfolding append line_draft
append-ReadyStep (always a x d n) h = ground arith
append-ReadyStep (positive a x d n) h = tt
append-ReadyStep (charged o x d n) h = tt

pub fixed_count-cons :
    (s : Append) (ss : List Append) → fixed_count (s ∷ ss) ≡ fixed_count (s ∷ []) + fixed_count ss
fixed_count-cons (always a x d n) ss = omega arith
fixed_count-cons (positive a x d n) ss = omega arith
fixed_count-cons (charged o x d n) ss = omega arith

-- `build` succeeds exactly where every unconditional line is positive.
pub build-ok :
    (ss : List Append)
    → Ready ss
    → (ls : List JournalLineDraft) × (build ss ≡ ok ls) × (fixed_count ss ≤ length ls)
unfolding build
build-ok [] h = ([], refl, omega arith)
build-ok (s ∷ ss) h =
    let (l, p, c) = append_ready s h.0 in
    let (rest, q, d) = build-ok ss h.1 in
    (l ++ rest, rw p (rw q), omega (arith, fixed_count-cons s ss, length-append l rest))

pub build-Ready : (ss : List Append) {ls : List JournalLineDraft} → build ss ≡ ok ls → Ready ss
build-Ready [] h = tt
build-Ready (s ∷ ss) h =
    let (l, rest, p, q, e) = build-cons s ss h in (append-ReadyStep s p, build-Ready ss q)

abbrev pub all_accounts : ℕ → Bool
all_accounts _ = true

sides :
    (d : Direction) (x D C : ℤ)
    → elim d [ debit ↦ x | credit ↦ pos 0 ] +ℤ D -ℤ (elim d [ debit ↦ pos 0 | credit ↦ x ] +ℤ C)
      ≡ signed d x +ℤ (D -ℤ C)
sides debit x D C = omega int_laws
sides credit x D C = omega int_laws

pub side_sums :
    (ls : List JournalLineDraft) → side_sum debit ls -ℤ side_sum credit ls ≡ moved all_accounts ls
unfolding side_sum moved
side_sums [] = omega int_laws
side_sums (l ∷ ls) = rw (← side_sums ls) (sides l.direction l.amount _ _)

pub validate_lem :
    (ls : List JournalLineDraft)
    → 2 ≤ length ls
    → validate ls ≡ (if eqb_ℤ (moved all_accounts ls) (pos 0) then ok tt else err out_of_balance)
unfolding validate
validate_lem ls h = rw (side_sums ls) (ground (arith, abs_parts (moved all_accounts ls)))

pub validate-balanced :
    (ls : List JournalLineDraft) {u : Unit {0}}
    → validate ls ≡ ok u
    → (2 ≤ length ls) × (moved all_accounts ls ≡ pos 0)
unfolding validate
validate-balanced ls h = (
  ground arith,
  rw (← side_sums ls) (ground (arith, abs_parts (side_sum debit ls -ℤ side_sum credit ls))),
)

-- What `post` comes to where every unconditional line is positive: the entry, if the appends
-- balance, or the refusal that it is out of balance, if they do not.
abbrev pub Settles : List Append → Result LedgerError JournalEntryDraft → Type 0
Settles ss (ok e) =
    (dues all_accounts ss ≡ pos 0) × ((sel : ℕ → Bool) → moved sel e.lines ≡ dues sel ss)
Settles ss (err out_of_balance) = dues all_accounts ss ≢ pos 0
Settles ss (err nonpositive_amount) = ⊥
Settles ss (err too_few_lines) = ⊥

module _ (tenant date : ℕ) (reference description source_type : String) (source : ℕ) where
  pub post-Settles :
      (ss : List Append)
      → Ready ss
      → 2 ≤ fixed_count ss
      → Settles ss (post tenant date reference description source_type source ss)
  unfolding post entry_draft
  post-Settles ss h c =
      let (ls, b, n) = build-ok ss h in
      rw b (
        rw (validate_lem ls (omega arith)) (
          rw (build-moved all_accounts ss b)
            (elim (Bool-cases (eqb_ℤ (dues all_accounts ss) (pos 0))) [
              | inl p ↦ rw p (ground arith, λ sel. build-moved sel ss b)
              | inr p ↦ rw p (ground arith)
            ])))

  pub post_inversion :
      (ss : List Append) {e : JournalEntryDraft}
      → post tenant date reference description source_type source ss ≡ ok e
      → Ready ss
        × (2 ≤ length e.lines)
        × (dues all_accounts ss ≡ pos 0)
        × ((sel : ℕ → Bool) → moved sel e.lines ≡ dues sel ss)
  unfolding post entry_draft
  post_inversion ss h =
      let (ls, b, h') = bind-ok (build ss) _ h in
      let (u, v, e) = bind-ok (validate ls) _ h' in
      let (n, z) = validate-balanced ls v in
      let same = ap (λ (d : JournalEntryDraft). d.lines) (ok-injective e) in
      (
        build-Ready ss b,
        rw (← same) n,
        sym (build-moved all_accounts ss b) ∙ z,
        λ sel. rw (← same) (build-moved sel ss b),
      )
