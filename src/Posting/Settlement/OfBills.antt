-- ===== src/Posting/Settlement/OfBills.antt =====
-- Posting a bill.
use Prim.Native.String.{◌++◌ as concat}
use bookkeeping.Base.{Bool, arith, ℕ, ◌∙◌, ◌∷◌, ◌≡◌, ◌≤◌}
use bookkeeping.Int.{int_laws, pos, ℤ, ◌+ℤ◌, ◌-ℤ◌, ◌<ℤ◌}
use bookkeeping.Money.{IsPaise, IsPaise-add, IsPaise-sub}
use bookkeeping.Posting.Amounts.{
  IsAmount, Posted, Settles-Posted, TaxesInPaise, charge-amount, fixed-paise, rounding,
  rounding-all, surplus-amount, swing-paise, tax_charge-amounts, tax_total-IsPaise,
  taxes_to_accounts, taxes_to_accounts-all, to_account, to_account-all, unposted, unposted_taxes,
}
use bookkeeping.Posting.Bills.{Bill, bill_appends, create_bill_posting, vendor_payable}
use bookkeeping.Posting.Draft.{credit, debit}
use bookkeeping.Posting.Effect.{dues, dues-append, on}
use bookkeeping.Posting.Lines.{always, charged, party_credited_last, tax_lines}
use bookkeeping.Posting.Outcome.{Ready, all_accounts, fixed_count, post-Settles}
use bookkeeping.Posting.Parts.{
  Ready-append, fixed_count-append, party_credited_last-Ready, party_credited_last-dues,
  tax_lines-Ready, tax_lines-dues,
}

-- A bill in whole paise, with something bought and something owed.
pub record IsPayable (p : Bill) : Type 0 where
  pub subtotal : IsPaise p.subtotal
  pub discount : IsPaise p.discount_total
  pub shipping : IsAmount p.shipping_charges
  pub taxes : TaxesInPaise p.taxes
  pub round_off : IsPaise p.round_off_amount
  pub tds : IsAmount p.tds_amount
  pub bought : pos 0 <ℤ p.subtotal -ℤ p.discount_total
  pub owed : pos 0 <ℤ vendor_payable p

-- Debits less credits on the selected accounts.
abbrev pub bill_effect : Bill → (ℕ → Bool) → ℤ
bill_effect p sel =
    on (sel p.purchase_expense_account_id) (p.subtotal -ℤ p.discount_total)
    +ℤ on (sel p.purchase_expense_account_id) p.shipping_charges
    +ℤ taxes_to_accounts sel p.taxes
    -ℤ on (sel p.vendor_account_id) (vendor_payable p)
    -ℤ to_account sel p.tds_account_id p.tds_amount
    -ℤ rounding sel p.round_off_account_id p.vendor_account_id p.round_off_amount

abbrev pub bill_unposted : Bill → ℤ
bill_unposted p = unposted p.tds_account_id p.tds_amount -ℤ unposted_taxes p.taxes

payable-IsPaise : (p : Bill) → IsPayable p → IsPaise (vendor_payable p)
unfolding vendor_payable
payable-IsPaise p h =
    IsPaise-sub _ _
      (IsPaise-add _ _ (IsPaise-add _ _ (IsPaise-sub _ _ h.subtotal h.discount) h.shipping.1)
        (tax_total-IsPaise p.taxes h.taxes))
      h.tds.1

module _ (p : Bill) (h : IsPayable p) where
  bill_dues : (sel : ℕ → Bool) → dues sel (bill_appends p) ≡ bill_effect p sel
  unfolding bill_appends
  bill_dues sel =
      simp
        (
          dues-append,
          party_credited_last-dues,
          tax_lines-dues,
          tax_charge-amounts sel p.taxes h.taxes,
          fixed-paise sel p.vendor_account_id (vendor_payable p) (payable-IsPaise p h),
          fixed-paise sel p.purchase_expense_account_id (p.subtotal -ℤ p.discount_total)
              (IsPaise-sub _ _ h.subtotal h.discount),
          surplus-amount sel p.purchase_expense_account_id p.shipping_charges h.shipping,
          charge-amount sel p.tds_account_id p.tds_amount h.tds,
          swing-paise sel p.round_off_account_id p.vendor_account_id p.round_off_amount h.round_off,
        )
        (omega int_laws)

  bill-Ready : Ready (bill_appends p)
  unfolding bill_appends
  bill-Ready = (
    h.bought,
    (
      tt,
      Ready-append _ _ (tax_lines-Ready _ _ _) (h.owed, (tt, party_credited_last-Ready _ _ _ _)),
    ),
  )

bill_lines : (p : Bill) → 2 ≤ fixed_count (bill_appends p)
unfolding bill_appends
bill_lines p = omega (
  arith,
  fixed_count-append (tax_lines debit "Input Tax" p.taxes) (
      always p.vendor_account_id (vendor_payable p) credit (concat "Payable: Bill " p.bill_number)
      ∷ charged p.tds_account_id p.tds_amount credit (concat "TDS Deducted: Bill " p.bill_number)
      ∷ party_credited_last (concat "Round-off: " p.bill_number) p.round_off_account_id
          p.vendor_account_id p.round_off_amount),
)

bill_balance : (p : Bill) → bill_effect p all_accounts ≡ bill_unposted p
unfolding vendor_payable
bill_balance p = simp (to_account-all, taxes_to_accounts-all, rounding-all) (omega int_laws)

-- A payable bill is posted exactly where the TDS without an account equals the input tax without an
-- account, so in particular where both are nothing; else it is refused as out of balance. The entry
-- debits the purchase account with the net purchase and the freight, and the input taxes, credits the
-- vendor with what is owed and the TDS account, credits the vendor with the rounding difference, and
-- does nothing else.
pub create_bill_posting-Posted :
    (p : Bill) → IsPayable p → Posted (bill_unposted p) (bill_effect p) (create_bill_posting p)
unfolding create_bill_posting
create_bill_posting-Posted p h =
    Settles-Posted (bill_appends p) (bill_unposted p) (bill_effect p)
      (bill_dues p h all_accounts ∙ bill_balance p) (bill_dues p h) _
      (post-Settles _ _ _ _ _ _ (bill_appends p) (bill-Ready p h) (bill_lines p))
