-- ===== src/Posting/Amounts.antt =====
-- Documents in whole paise: no line is changed by the rounding to two places, and the entry is out of
-- balance by exactly what has no account to go to.
use bookkeeping.Base.{
  Bool, List, Option, Result, arith, err, false, none, ok, refl, some, suc, sym, true, zero, ℕ, ◌∙◌,
  ◌≡◌, ◌≢◌,
}
use bookkeeping.Int.{
  abs-negsuc, abs-pos, eq_of_parts, int_laws, neg, neg-zero, negsuc, pos, sub_self, ℤ, ◌+ℤ◌, ◌-ℤ◌,
  ◌≤ℤ◌,
}
use bookkeeping.Money.{IsPaise, IsPaise-add, quantize-paise}
use bookkeeping.Posting.Draft.{
  JournalEntryDraft, LedgerError, nonpositive_amount, out_of_balance, too_few_lines,
}
use bookkeeping.Posting.Effect.{charge, dues, fixed, moved, on, surplus}
use bookkeeping.Posting.Lines.{Append, Taxes, tax_total}
use bookkeeping.Posting.Outcome.{Settles, all_accounts}
use bookkeeping.Posting.Parts.{swing, tax_charge}

abbrev pub IsAmount : ℤ → Type 0
IsAmount x = (pos 0 ≤ℤ x) × IsPaise x

pub record TaxesInPaise (t : Taxes) : Type 0 where
  pub cgst : IsAmount t.cgst_amount
  pub sgst : IsAmount t.sgst_amount
  pub igst : IsAmount t.igst_amount
  pub utgst : IsAmount t.utgst_amount
  pub cess : IsAmount t.cess_amount

pub tax_total-IsPaise : (t : Taxes) → TaxesInPaise t → IsPaise (tax_total t)
unfolding tax_total
tax_total-IsPaise t h =
    IsPaise-add _ _
      (IsPaise-add _ _ (IsPaise-add _ _ (IsPaise-add _ _ h.cgst.1 h.sgst.1) h.igst.1) h.utgst.1)
      h.cess.1

-- What reaches the selected accounts, and what has no account.
pub to_account : (ℕ → Bool) → Option ℕ → ℤ → ℤ
to_account sel none x = pos 0
to_account sel (some a) x = on (sel a) x

pub unposted : Option ℕ → ℤ → ℤ
unposted none x = x
unposted (some a) x = pos 0

pub taxes_to_accounts : (ℕ → Bool) → Taxes → ℤ
taxes_to_accounts sel t =
    to_account sel t.cgst_account_id t.cgst_amount
    +ℤ to_account sel t.sgst_account_id t.sgst_amount
    +ℤ to_account sel t.igst_account_id t.igst_amount
    +ℤ to_account sel t.utgst_account_id t.utgst_amount
    +ℤ to_account sel t.cess_account_id t.cess_amount

pub unposted_taxes : Taxes → ℤ
unposted_taxes t =
    unposted t.cgst_account_id t.cgst_amount
    +ℤ unposted t.sgst_account_id t.sgst_amount
    +ℤ unposted t.igst_account_id t.igst_amount
    +ℤ unposted t.utgst_account_id t.utgst_amount
    +ℤ unposted t.cess_account_id t.cess_amount

-- The rounding difference `x` moves between the party `c` and the round-off account.
pub rounding : (ℕ → Bool) → Option ℕ → ℕ → ℤ → ℤ
rounding sel none c x = pos 0
rounding sel (some r) c x = on (sel c) x -ℤ on (sel r) x

pub to_account-all : (o : Option ℕ) (x : ℤ) → to_account all_accounts o x ≡ x -ℤ unposted o x
unfolding to_account unposted
to_account-all none x = omega int_laws
to_account-all (some a) x = omega int_laws

pub taxes_to_accounts-all :
    (t : Taxes) → taxes_to_accounts all_accounts t ≡ tax_total t -ℤ unposted_taxes t
unfolding taxes_to_accounts unposted_taxes tax_total
taxes_to_accounts-all t = simp to_account-all (omega int_laws)

pub rounding-all : (o : Option ℕ) (c : ℕ) (x : ℤ) → rounding all_accounts o c x ≡ pos 0
unfolding rounding
rounding-all none c x = refl
rounding-all (some r) c x = sub_self x

on-zero : (b : Bool) → on b (pos 0) ≡ pos 0
on-zero true = refl
on-zero false = refl

on-negsuc : (b : Bool) (n : ℕ) → on b (negsuc n) ≡ neg (on b (pos (suc n)))
on-negsuc true n = omega int_laws
on-negsuc false n = sym neg-zero

neg_sub : (x y : ℤ) → y -ℤ x ≡ neg x -ℤ neg y
neg_sub x y = omega int_laws

module _ (sel : ℕ → Bool) where
  pub fixed-paise : (a : ℕ) (x : ℤ) → IsPaise x → fixed sel a x ≡ on (sel a) x
  unfolding fixed
  fixed-paise a x h = rw (quantize-paise x h)

  pub surplus-amount : (a : ℕ) (x : ℤ) → IsAmount x → surplus sel a x ≡ on (sel a) x
  unfolding surplus
  surplus-amount a x h = ground (arith, quantize-paise x h.1, eq_of_parts x (pos 0))

  pub charge-amount : (o : Option ℕ) (x : ℤ) → IsAmount x → charge sel o x ≡ to_account sel o x
  unfolding charge to_account
  charge-amount none x h = refl
  charge-amount (some a) x h = ground (arith, quantize-paise x h.1, eq_of_parts x (pos 0))

  pub tax_charge-amounts : (t : Taxes) → TaxesInPaise t → tax_charge sel t ≡ taxes_to_accounts sel t
  unfolding tax_charge taxes_to_accounts
  tax_charge-amounts t h = rw (
    charge-amount t.cgst_account_id t.cgst_amount h.cgst,
    charge-amount t.sgst_account_id t.sgst_amount h.sgst,
    charge-amount t.igst_account_id t.igst_amount h.igst,
    charge-amount t.utgst_account_id t.utgst_amount h.utgst,
    charge-amount t.cess_account_id t.cess_amount h.cess,
  )

  pub swing-paise :
      (o : Option ℕ) (c : ℕ) (x : ℤ) → IsPaise x → swing sel o c x ≡ rounding sel o c x
  unfolding swing rounding fixed
  swing-paise none c x h = refl
  swing-paise (some r) c (pos zero) h =
      rw (on-zero (sel c), on-zero (sel r)) (sym (sub_self (pos 0)))
  swing-paise (some r) c (pos (suc n)) h =
      rw (abs-pos (suc n), quantize-paise (pos (suc n)) h) (ground arith)
  swing-paise (some r) c (negsuc n) h =
      rw
        (
          abs-negsuc n,
          quantize-paise (pos (suc n)) (h.1, refl),
          on-negsuc (sel c) n,
          on-negsuc (sel r) n,
        )
        (ground (arith, neg_sub (on (sel c) (pos (suc n))) (on (sel r) (pos (suc n)))))

-- The entry that is posted moves `effect`, and it is posted exactly where nothing is missing.
abbrev pub Posted : ℤ → ((ℕ → Bool) → ℤ) → Result LedgerError JournalEntryDraft → Type 0
Posted missing effect (ok e) =
    (missing ≡ pos 0) × ((sel : ℕ → Bool) → moved sel e.lines ≡ effect sel)
Posted missing effect (err out_of_balance) = missing ≢ pos 0
Posted missing effect (err nonpositive_amount) = ⊥
Posted missing effect (err too_few_lines) = ⊥

pub Settles-Posted :
    (ss : List Append) (missing : ℤ) (effect : (ℕ → Bool) → ℤ)
    → dues all_accounts ss ≡ missing
    → ((sel : ℕ → Bool) → dues sel ss ≡ effect sel)
    → (r : Result LedgerError JournalEntryDraft) → Settles ss r
    → Posted missing effect r
Settles-Posted ss missing effect m f (ok e) s = (sym m ∙ s.0, λ sel. s.1 sel ∙ f sel)
Settles-Posted ss missing effect m f (err out_of_balance) s = λ z. s (m ∙ z)
Settles-Posted ss missing effect m f (err nonpositive_amount) s = absurd s
Settles-Posted ss missing effect m f (err too_few_lines) s = absurd s
