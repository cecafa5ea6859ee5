-- ===== src/AutoPost/Appends.antt =====
-- The accounts that the postings of documents name.
use Prim.Native.String.{◌++◌ as concat}
use bookkeeping.Accounts.ResolverLaws.{Owned}
use bookkeeping.AutoPost.Documents.{
  DocumentRow, bill_arguments, invoice_arguments, no_taxes, row_taxes,
}
use bookkeeping.AutoPost.Named.{Shares, all_named-owned, round_off_lines-owned}
use bookkeeping.AutoPost.Owned.{AllOwned, option_list}
use bookkeeping.AutoPost.Resolution.{DocumentAccounts}
use bookkeeping.AutoPost.Sound.{AllOwned-append, all_named}
use bookkeeping.Base.{Bool, List, String, [], false, if◌then◌else◌, some, true, ℕ, ◌++◌, ◌∷◌}
use bookkeeping.Int.{ℤ}
use bookkeeping.Ledger.Tables.{Account}
use bookkeeping.Posting.Bills.{bill_appends, payable_lines}
use bookkeeping.Posting.Draft.{credit, debit}
use bookkeeping.Posting.Invoices.{invoice_appends, rcm_lines, taxed_lines}
use bookkeeping.Posting.Lines.{Append, exchange, party_credited_last, party_debited, tax_lines}

module _ (tenant : ℕ) (accounts : List Account) where
  if_owned :
      (b : Bool) (ss ts : List Append)
      → AllOwned tenant (all_named ss) accounts
      → AllOwned tenant (all_named ts) accounts
      → AllOwned tenant (all_named (if b then ss else ts)) accounts
  if_owned true ss ts h k = h
  if_owned false ss ts h k = k

  charges_owned :
      (a : DocumentAccounts) (rest : List ℕ)
      → Shares tenant accounts a
      → AllOwned tenant rest accounts
      → AllOwned tenant (option_list a.tds ++ (option_list a.tcs ++ rest)) accounts
  charges_owned a rest s h =
      AllOwned-append tenant (option_list a.tds) _ accounts s.tds
        (AllOwned-append tenant (option_list a.tcs) rest accounts s.tcs h)

  pub party_debited-Owned :
      (n : String) (r c : ℕ) (x : ℤ)
      → Owned tenant c accounts
      → Owned tenant r accounts
      → AllOwned tenant (all_named (party_debited n (some r) c x)) accounts
  unfolding party_debited
  party_debited-Owned n r c x party round_off =
      round_off_lines-owned tenant accounts r x (λ y. exchange x n c debit y credit)
        (λ y. exchange x n y debit c credit) (party, (round_off, tt)) (round_off, (party, tt))

  pub party_credited_last-Owned :
      (n : String) (r c : ℕ) (x : ℤ)
      → Owned tenant c accounts
      → Owned tenant r accounts
      → AllOwned tenant (all_named (party_credited_last n (some r) c x)) accounts
  unfolding party_credited_last
  party_credited_last-Owned n r c x party round_off =
      round_off_lines-owned tenant accounts r x (λ y. exchange x n y debit c credit)
        (λ y. exchange x n c debit y credit) (round_off, (party, tt)) (party, (round_off, tt))

  pub invoice_appends-owned :
      (d : DocumentRow) (a : DocumentAccounts)
      → Shares tenant accounts a
      → AllOwned tenant (all_named (invoice_appends (invoice_arguments tenant d a))) accounts
  unfolding invoice_appends invoice_arguments tax_lines
  invoice_appends-owned d a s =
      let t = a.tax in
      let p = invoice_arguments tenant d a in
      all_named-owned tenant accounts (if d.is_rcm then rcm_lines p else taxed_lines p)
        (party_debited (concat "Round-off: " d.number) (some t.round_off) a.party d.round_off)
        (if_owned d.is_rcm (rcm_lines p) (taxed_lines p)
          (charges_owned a (a.party ∷ a.subject ∷ a.subject ∷ []) s
            (s.party, (s.subject, (s.subject, tt))))
          (charges_owned a
            (a.party ∷ a.subject ∷ a.subject ∷ t.cgst ∷ t.sgst ∷ t.igst ∷ t.utgst ∷ t.cess ∷ []) s
            (
              s.party,
              (s.subject, (s.subject, (s.cgst, (s.sgst, (s.igst, (s.utgst, (s.cess, tt))))))),
            )))
        (party_debited-Owned (concat "Round-off: " d.number) t.round_off a.party d.round_off s.party
          s.round_off)

  bill_taxes-owned :
      (b : Bool) (d : DocumentRow) (a : DocumentAccounts) (rest : List Append)
      → Shares tenant accounts a
      → AllOwned tenant (all_named rest) accounts
      → AllOwned tenant
          (all_named
            (tax_lines debit "Input Tax" (if b then row_taxes d a.tax else no_taxes a.tax) ++ rest))
          accounts
  unfolding tax_lines
  bill_taxes-owned true d a rest s h = (s.cgst, (s.sgst, (s.igst, (s.utgst, (s.cess, h)))))
  bill_taxes-owned false d a rest s h = (s.cgst, (s.sgst, (s.igst, (s.utgst, (s.cess, h)))))

  pub bill_appends-owned :
      (d : DocumentRow) (a : DocumentAccounts)
      → Shares tenant accounts a
      → AllOwned tenant (all_named (bill_appends (bill_arguments tenant d a))) accounts
  unfolding bill_appends bill_arguments
  bill_appends-owned d a s = (
    s.subject,
    (
      s.subject,
      bill_taxes-owned d.itc_eligible d a (payable_lines (bill_arguments tenant d a)) s (
        s.party,
        AllOwned-append tenant (option_list a.tds)
            (all_named (
              party_credited_last (concat "Round-off: " d.number) (some a.tax.round_off) a.party
                d.round_off))
            accounts s.tds
            (party_credited_last-Owned (concat "Round-off: " d.number) a.tax.round_off a.party
              d.round_off s.party s.round_off),
      ),
    ),
  )
