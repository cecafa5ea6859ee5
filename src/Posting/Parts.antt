-- ===== src/Posting/Parts.antt =====
-- What the shared parts of the posting functions put on the accounts: the tax lines and the lines
-- for a rounding difference.
use bookkeeping.Base.{
  Bool, Bool-cases, List, Option, String, [], arith, false, if◌then◌else◌, inl, inr, none, refl,
  some, sym, ℕ, ◌++◌, ◌+◌, ◌∷◌, ◌≡◌,
}
use bookkeeping.Int.{
  abs, abs_parts, eqb_ℤ, int_laws, ltb_ℤ, neg, neg-zero, pos, sub_self, ℤ, ◌+ℤ◌, ◌-ℤ◌, ◌<ℤ◌,
}
use bookkeeping.Money.{quantize}
use bookkeeping.Posting.Draft.{Direction, credit, debit}
use bookkeeping.Posting.Effect.{charge, dues, fixed, signed}
use bookkeeping.Posting.Lines.{
  Append, Taxes, party_credited, party_credited_last, party_debited, round_off_lines, tax_lines,
}
use bookkeeping.Posting.Outcome.{Ready, all_accounts, fixed_count, fixed_count-cons}

-- The rounding difference `x` that the party's account takes from the round-off account.
unfoldable pub swing : (ℕ → Bool) → Option ℕ → ℕ → ℤ → ℤ
swing sel none c x = pos 0
swing sel (some r) c x =
    if eqb_ℤ x (pos 0)
    then pos 0
    else if ltb_ℤ (pos 0) x
    then fixed sel c (abs x) -ℤ fixed sel r (abs x)
    else fixed sel r (abs x) -ℤ fixed sel c (abs x)

unfoldable pub tax_charge : (ℕ → Bool) → Taxes → ℤ
tax_charge sel t =
    charge sel t.cgst_account_id t.cgst_amount
    +ℤ charge sel t.sgst_account_id t.sgst_amount
    +ℤ charge sel t.igst_account_id t.igst_amount
    +ℤ charge sel t.utgst_account_id t.utgst_amount
    +ℤ charge sel t.cess_account_id t.cess_amount

pub tax_lines-dues :
    (sel : ℕ → Bool) (d : Direction) (n : String) (t : Taxes)
    → dues sel (tax_lines d n t) ≡ signed d (tax_charge sel t)
unfolding tax_lines tax_charge
tax_lines-dues sel debit n t = omega int_laws
tax_lines-dues sel credit n t = omega int_laws

pub tax_lines-Ready : (d : Direction) (n : String) (t : Taxes) → Ready (tax_lines d n t)
unfolding tax_lines
tax_lines-Ready d n t = (tt, (tt, (tt, (tt, (tt, tt)))))

abs_pos : (x : ℤ) → eqb_ℤ x (pos 0) ≡ false → pos 0 <ℤ abs x
abs_pos x h = ground (arith, abs_parts x)

-- Both branches of the rounding difference at once.
dues-round_off_lines :
    (sel : ℕ → Bool) (d : Direction) (o : Option ℕ) (c : ℕ) (x : ℤ) (up down : ℕ → List Append)
    → ((r : ℕ) → dues sel (up r) ≡ signed d (fixed sel c (abs x) -ℤ fixed sel r (abs x)))
    → ((r : ℕ) → dues sel (down r) ≡ signed d (fixed sel r (abs x) -ℤ fixed sel c (abs x)))
    → dues sel (round_off_lines o x up down) ≡ signed d (swing sel o c x)
unfolding round_off_lines swing
dues-round_off_lines sel debit none c x up down u w = refl
dues-round_off_lines sel credit none c x up down u w = sym neg-zero
dues-round_off_lines sel d (some r) c x up down u w = elim (Bool-cases (eqb_ℤ x (pos 0))) [
  | inl p ↦ rw p (signed-zero d)
  | inr p ↦ rw p (elim (Bool-cases (ltb_ℤ (pos 0) x)) [ inl q ↦ rw q (u r) | inr q ↦ rw q (w r) ])
]
  where
    signed-zero : (d : Direction) → pos 0 ≡ signed d (pos 0)
    signed-zero debit = refl
    signed-zero credit = sym neg-zero

Ready-round_off_lines :
    (o : Option ℕ) (x : ℤ) (up down : ℕ → List Append)
    → ((r : ℕ) → pos 0 <ℤ abs x → Ready (up r))
    → ((r : ℕ) → pos 0 <ℤ abs x → Ready (down r))
    → Ready (round_off_lines o x up down)
unfolding round_off_lines
Ready-round_off_lines none x up down u w = tt
Ready-round_off_lines (some r) x up down u w = elim (Bool-cases (eqb_ℤ x (pos 0))) [
  | inl p ↦ rw p tt
  | inr p ↦ rw p (elim (Bool-cases (ltb_ℤ (pos 0) x)) [
    | inl q ↦ rw q (u r (abs_pos x p))
    | inr q ↦ rw q (w r (abs_pos x p))
  ])
]

module _ (sel : ℕ → Bool) (n : String) (o : Option ℕ) (c : ℕ) (x : ℤ) where
  pub party_debited-dues : dues sel (party_debited n o c x) ≡ swing sel o c x
  unfolding party_debited
  party_debited-dues =
      dues-round_off_lines sel debit o c x _ _ (λ r. omega int_laws) (λ r. omega int_laws)

  pub party_credited-dues : dues sel (party_credited n o c x) ≡ neg (swing sel o c x)
  unfolding party_credited
  party_credited-dues =
      dues-round_off_lines sel credit o c x _ _ (λ r. omega int_laws) (λ r. omega int_laws)

  pub party_credited_last-dues : dues sel (party_credited_last n o c x) ≡ neg (swing sel o c x)
  unfolding party_credited_last
  party_credited_last-dues =
      dues-round_off_lines sel credit o c x _ _ (λ r. omega int_laws) (λ r. omega int_laws)

module _ (n : String) (o : Option ℕ) (c : ℕ) (x : ℤ) where
  pub party_debited-Ready : Ready (party_debited n o c x)
  unfolding party_debited
  party_debited-Ready = Ready-round_off_lines o x _ _ (λ r h. (h, (h, tt))) (λ r h. (h, (h, tt)))

  pub party_credited-Ready : Ready (party_credited n o c x)
  unfolding party_credited
  party_credited-Ready = Ready-round_off_lines o x _ _ (λ r h. (h, (h, tt))) (λ r h. (h, (h, tt)))

  pub party_credited_last-Ready : Ready (party_credited_last n o c x)
  unfolding party_credited_last
  party_credited_last-Ready =
      Ready-round_off_lines o x _ _ (λ r h. (h, (h, tt))) (λ r h. (h, (h, tt)))

-- A rounding difference does not change the balance of the entry.
pub swing-all_accounts : (o : Option ℕ) (c : ℕ) (x : ℤ) → swing all_accounts o c x ≡ pos 0
unfolding swing fixed
swing-all_accounts none c x = refl
swing-all_accounts (some r) c x = ground (arith, sub_self (quantize (abs x)))

pub Ready-append : (ss ts : List Append) → Ready ss → Ready ts → Ready (ss ++ ts)
Ready-append [] ts h k = k
Ready-append (s ∷ ss) ts h k = (h.0, Ready-append ss ts h.1 k)

pub Ready-left : (ss ts : List Append) → Ready (ss ++ ts) → Ready ss
Ready-left [] ts h = tt
Ready-left (s ∷ ss) ts h = (h.0, Ready-left ss ts h.1)

pub Ready-right : (ss ts : List Append) → Ready (ss ++ ts) → Ready ts
Ready-right [] ts h = h
Ready-right (s ∷ ss) ts h = Ready-right ss ts h.1

pub fixed_count-append :
    (ss ts : List Append) → fixed_count (ss ++ ts) ≡ fixed_count ss + fixed_count ts
fixed_count-append [] ts = omega arith
fixed_count-append (s ∷ ss) ts =
    omega (arith, fixed_count-cons s (ss ++ ts), fixed_count-cons s ss, fixed_count-append ss ts)
