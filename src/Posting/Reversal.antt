-- ===== src/Posting/Reversal.antt =====
-- A posting and its reversal, taken together: the general argument. The documents' cases are in the
-- modules below.
pub mod OfInvoices
pub mod OfBills
pub mod OfDocuments
pub mod OfPayments
use bookkeeping.Base.{Bool, List, Result, String, ap, err, ok, sym, ℕ, ◌∙◌, ◌≡◌, ◌≤◌}
use bookkeeping.Int.{pos, zero-add, ℤ, ◌+ℤ◌}
use bookkeeping.Posting.Documents.{total}
use bookkeeping.Posting.Draft.{
  JournalEntryDraft, LedgerError, nonpositive_amount, out_of_balance, too_few_lines,
}
use bookkeeping.Posting.Effect.{dues, moved}
use bookkeeping.Posting.Lines.{Append, post}
use bookkeeping.Posting.Outcome.{
  Ready, Settles, all_accounts, fixed_count, post-Settles, post_inversion,
}

-- After the entry `e`, the reversal goes through, and together they move `offset`.
abbrev pub Reverses :
    ((ℕ → Bool) → ℤ) → JournalEntryDraft → Result LedgerError JournalEntryDraft → Type 0
Reverses offset e (ok r) = (sel : ℕ → Bool) → moved sel e.lines +ℤ moved sel r.lines ≡ offset sel
Reverses offset e (err _) = ⊥

-- The reversal undoes the entry on every account.
abbrev pub Cancels : JournalEntryDraft → Result LedgerError JournalEntryDraft → Type 0
Cancels = Reverses (λ _. pos 0)

settled_reversal :
    (ss ts : List Append) (offset : (ℕ → Bool) → ℤ) (e : JournalEntryDraft)
    → dues all_accounts ss ≡ pos 0
    → ((sel : ℕ → Bool) → moved sel e.lines ≡ dues sel ss)
    → ((sel : ℕ → Bool) → dues sel ss +ℤ dues sel ts ≡ offset sel)
    → offset all_accounts ≡ pos 0
    → (r : Result LedgerError JournalEntryDraft) → Settles ts r
    → Reverses offset e r
settled_reversal ss ts offset e b m total even (ok r) s =
    λ sel. rw (m sel) (rw (s.1 sel) (total sel))
settled_reversal ss ts offset e b m total even (err out_of_balance) s =
    absurd (s (cancel_left b (total all_accounts ∙ even)))
  where
    cancel_left : {x y : ℤ} → x ≡ pos 0 → x +ℤ y ≡ pos 0 → y ≡ pos 0
    cancel_left {x} {y} p q = sym (zero-add y) ∙ ap (λ z. z +ℤ y) (sym p) ∙ q
settled_reversal ss ts offset e b m total even (err nonpositive_amount) s = absurd s
settled_reversal ss ts offset e b m total even (err too_few_lines) s = absurd s

-- The headings of the two entries are free.
pub post_reversed :
    (tenant date : ℕ) (reference description source_type : String) (source : ℕ) (tenant' date' : ℕ)
    (reference' description' source_type' : String) (source' : ℕ) (ss ts : List Append)
    (offset : (ℕ → Bool) → ℤ) (e : JournalEntryDraft)
    → post tenant date reference description source_type source ss ≡ ok e
    → (Ready ss → Ready ts)
    → 2 ≤ fixed_count ts
    → ((sel : ℕ → Bool) → dues sel ss +ℤ dues sel ts ≡ offset sel)
    → offset all_accounts ≡ pos 0
    → Reverses offset e (post tenant' date' reference' description' source_type' source' ts)
post_reversed t d r n k s t' d' r' n' k' s' ss ts offset e h ready c sums even =
    let (first, _, b, m) = post_inversion t d r n k s ss h in
    settled_reversal ss ts offset e b m sums even _
      (post-Settles t' d' r' n' k' s' ts (ready first) c)
