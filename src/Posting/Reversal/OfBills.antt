-- ===== src/Posting/Reversal/OfBills.antt =====
-- Cancelling a bill.
use bookkeeping.Base.{Bool, arith, ok, ℕ, ◌≡◌, ◌≤◌}
use bookkeeping.Int.{int_laws, neg, ℤ, ◌+ℤ◌}
use bookkeeping.Posting.Bills.{
  Bill, bill_appends, bill_reversal_appends, create_bill_posting, create_bill_reversal_posting,
}
use bookkeeping.Posting.Draft.{JournalEntryDraft, debit}
use bookkeeping.Posting.Effect.{dues, dues-append}
use bookkeeping.Posting.Lines.{tax_lines}
use bookkeeping.Posting.Outcome.{Ready, fixed_count}
use bookkeeping.Posting.Parts.{
  Ready-append, Ready-right, party_credited-Ready, party_credited-dues, party_credited_last-dues,
  swing, swing-all_accounts, tax_lines-Ready, tax_lines-dues,
}
use bookkeeping.Posting.Reversal.{Reverses, post_reversed}

-- Both the bill and its reversal give the vendor the credit for a rounding difference.
abbrev pub bill_residue : Bill → (ℕ → Bool) → ℤ
bill_residue p sel =
    let taken = swing sel p.round_off_account_id p.vendor_account_id p.round_off_amount in
    neg (taken +ℤ taken)

bill_dues :
    (sel : ℕ → Bool) (p : Bill)
    → dues sel (bill_appends p) +ℤ dues sel (bill_reversal_appends p) ≡ bill_residue p sel
unfolding bill_appends bill_reversal_appends
bill_dues sel p =
    simp (dues-append, party_credited_last-dues, party_credited-dues, tax_lines-dues)
      (omega int_laws)

bill-Ready : (p : Bill) → Ready (bill_appends p) → Ready (bill_reversal_appends p)
unfolding bill_appends bill_reversal_appends
bill-Ready p h =
    let payable = Ready-right (tax_lines debit "Input Tax" p.taxes) _ h.1.1 in
    (
      payable.0,
      (h.0, (tt, Ready-append _ _ (tax_lines-Ready _ _ _) (tt, party_credited-Ready _ _ _ _))),
    )

bill_lines : (p : Bill) → 2 ≤ fixed_count (bill_reversal_appends p)
unfolding bill_reversal_appends
bill_lines p = omega arith

-- Where a bill was posted, its reversal goes through. On every account the two entries add up to
-- what the rounding difference puts there twice over: the reversal repeats the rounding lines of
-- the bill where it should turn them round.
pub bill_reversal_residue :
    (p : Bill) (cancel_date : ℕ) (e : JournalEntryDraft)
    → create_bill_posting p ≡ ok e
    → Reverses (bill_residue p) e (create_bill_reversal_posting p cancel_date)
unfolding create_bill_posting create_bill_reversal_posting
bill_reversal_residue p cancel_date e h =
    post_reversed _ _ _ _ _ _ _ _ _ _ _ _ (bill_appends p) (bill_reversal_appends p)
      (bill_residue p) e h (bill-Ready p) (bill_lines p) (λ sel. bill_dues sel p)
      (rw (swing-all_accounts p.round_off_account_id p.vendor_account_id p.round_off_amount)
        (omega int_laws))
