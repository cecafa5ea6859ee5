-- ===== src/Posting/Reversal/OfInvoices.antt =====
-- Cancelling an invoice.
use bookkeeping.Base.{Bool, Bool-cases, arith, inl, inr, ok, refl, ℕ, ◌≡◌, ◌≤◌}
use bookkeeping.Int.{int_laws, pos, ◌+ℤ◌}
use bookkeeping.Posting.Draft.{JournalEntryDraft}
use bookkeeping.Posting.Effect.{dues, dues-append}
use bookkeeping.Posting.Invoices.{
  Invoice, create_invoice_posting, create_invoice_reversal_posting, invoice_appends,
  invoice_reversal_appends,
}
use bookkeeping.Posting.Outcome.{Ready, fixed_count}
use bookkeeping.Posting.Parts.{
  Ready-append, party_credited-Ready, party_credited-dues, party_debited-dues, tax_lines-Ready,
  tax_lines-dues,
}
use bookkeeping.Posting.Reversal.{Cancels, post_reversed}

invoice_dues :
    (sel : ℕ → Bool) (p : Invoice)
    → dues sel (invoice_appends p) +ℤ dues sel (invoice_reversal_appends p) ≡ pos 0
unfolding invoice_appends invoice_reversal_appends
invoice_dues sel p = elim (Bool-cases p.is_rcm) [
  | inl rcm ↦ simp (rcm, dues-append, party_debited-dues, party_credited-dues) (omega int_laws)
  | inr taxed ↦
      simp (taxed, dues-append, party_debited-dues, party_credited-dues, tax_lines-dues)
        (omega int_laws)
]

invoice-Ready : (p : Invoice) → Ready (invoice_appends p) → Ready (invoice_reversal_appends p)
unfolding invoice_appends invoice_reversal_appends
invoice-Ready p h = elim (Bool-cases p.is_rcm) [
  | inl rcm ↦
      let k = (rw rcm at h) in
      rw rcm (tt, (tt, (k.1.1.1.0, (tt, (k.1.1.0, party_credited-Ready _ _ _ _)))))
  | inr taxed ↦
      let k = (rw taxed at h) in
      rw taxed (
        tt,
        (
          tt,
          (
            k.1.1.1.0,
            (
              tt,
              (k.1.1.0, Ready-append _ _ (tax_lines-Ready _ _ _) (party_credited-Ready _ _ _ _)),
            ),
          ),
        ),
      )
]

invoice_lines : (p : Invoice) → 2 ≤ fixed_count (invoice_reversal_appends p)
unfolding invoice_reversal_appends
invoice_lines p = omega arith

-- Where an invoice was posted, its reversal goes through, and on every account the two entries add
-- up to nothing, the rounding difference and the reverse-charge case included.
pub invoice_reversal-Cancels :
    (p : Invoice) (cancel_date : ℕ) (e : JournalEntryDraft)
    → create_invoice_posting p ≡ ok e
    → Cancels e (create_invoice_reversal_posting p cancel_date)
unfolding create_invoice_posting create_invoice_reversal_posting
invoice_reversal-Cancels p cancel_date e h =
    post_reversed _ _ _ _ _ _ _ _ _ _ _ _ (invoice_appends p) (invoice_reversal_appends p)
      (λ _. pos 0) e h (invoice-Ready p) (invoice_lines p) (λ sel. invoice_dues sel p) refl
