-- ===== src/Posting/Settlement/OfInvoices.antt =====
-- Posting an invoice.
use bookkeeping.Base.{
  Bool, Bool-cases, arith, false, if◌then◌else◌, inl, inr, refl, true, ℕ, ◌∙◌, ◌≡◌, ◌≤◌,
}
use bookkeeping.Int.{int_laws, pos, ℤ, ◌+ℤ◌, ◌-ℤ◌, ◌<ℤ◌}
use bookkeeping.Money.{IsPaise, IsPaise-add, IsPaise-sub}
use bookkeeping.Posting.Amounts.{
  IsAmount, Posted, Settles-Posted, TaxesInPaise, charge-amount, fixed-paise, rounding,
  rounding-all, surplus-amount, swing-paise, tax_charge-amounts, tax_total-IsPaise,
  taxes_to_accounts, taxes_to_accounts-all, to_account, to_account-all, unposted, unposted_taxes,
}
use bookkeeping.Posting.Effect.{dues, dues-append, on}
use bookkeeping.Posting.Invoices.{Invoice, create_invoice_posting, invoice_appends, receivable}
use bookkeeping.Posting.Lines.{tax_total}
use bookkeeping.Posting.Outcome.{Ready, all_accounts, fixed_count, post-Settles}
use bookkeeping.Posting.Parts.{
  Ready-append, party_debited-Ready, party_debited-dues, tax_lines-Ready, tax_lines-dues,
}

-- An invoice in whole paise, with something to receive and something sold.
pub record IsBillable (p : Invoice) : Type 0 where
  pub subtotal : IsPaise p.subtotal
  pub discount : IsPaise p.discount_total
  pub shipping : IsAmount p.shipping_charges
  pub taxes : TaxesInPaise p.taxes
  pub round_off : IsPaise p.round_off_amount
  pub tds : IsAmount p.tds_amount
  pub tcs : IsAmount p.tcs_amount
  pub sold : pos 0 <ℤ p.subtotal -ℤ p.discount_total
  pub owed : pos 0 <ℤ receivable p

-- The tax that the seller accounts for.
abbrev pub output_tax : (ℕ → Bool) → Invoice → ℤ
output_tax sel p = if p.is_rcm then pos 0 else taxes_to_accounts sel p.taxes

-- Debits less credits on the selected accounts.
abbrev pub invoice_effect : Invoice → (ℕ → Bool) → ℤ
invoice_effect p sel =
    on (sel p.customer_account_id) (receivable p)
    +ℤ to_account sel p.tds_account_id p.tds_amount
    -ℤ to_account sel p.tcs_account_id p.tcs_amount
    -ℤ on (sel p.sales_revenue_account_id) (p.subtotal -ℤ p.discount_total)
    -ℤ on (sel p.sales_revenue_account_id) p.shipping_charges
    -ℤ output_tax sel p
    +ℤ rounding sel p.round_off_account_id p.customer_account_id p.round_off_amount

abbrev pub invoice_unposted : Invoice → ℤ
invoice_unposted p =
    (if p.is_rcm then pos 0 else unposted_taxes p.taxes)
    +ℤ unposted p.tcs_account_id p.tcs_amount
    -ℤ unposted p.tds_account_id p.tds_amount

receivable-IsPaise : (p : Invoice) → IsBillable p → IsPaise (receivable p)
unfolding receivable
receivable-IsPaise p h =
    IsPaise-add _ _
      (IsPaise-sub _ _
        (IsPaise-add _ _ (IsPaise-add _ _ (IsPaise-sub _ _ h.subtotal h.discount) h.shipping.1)
          (charged_tax p.is_rcm))
        h.tds.1)
      h.tcs.1
  where
    charged_tax : (b : Bool) → IsPaise (if b then pos 0 else tax_total p.taxes)
    charged_tax true = (refl, refl)
    charged_tax false = tax_total-IsPaise p.taxes h.taxes

module _ (p : Invoice) (h : IsBillable p) where
  invoice_dues : (sel : ℕ → Bool) → dues sel (invoice_appends p) ≡ invoice_effect p sel
  unfolding invoice_appends
  invoice_dues sel = elim (Bool-cases p.is_rcm) [
    | inl rcm ↦
        simp
          (
            rcm,
            party_debited-dues,
            fixed-paise sel p.customer_account_id (receivable p) (receivable-IsPaise p h),
            fixed-paise sel p.sales_revenue_account_id (p.subtotal -ℤ p.discount_total)
                (IsPaise-sub _ _ h.subtotal h.discount),
            surplus-amount sel p.sales_revenue_account_id p.shipping_charges h.shipping,
            charge-amount sel p.tds_account_id p.tds_amount h.tds,
            charge-amount sel p.tcs_account_id p.tcs_amount h.tcs,
            swing-paise sel p.round_off_account_id p.customer_account_id p.round_off_amount
                h.round_off,
          )
          (omega int_laws)
    | inr taxed ↦
        simp
          (
            taxed,
            dues-append,
            party_debited-dues,
            tax_lines-dues,
            tax_charge-amounts sel p.taxes h.taxes,
            fixed-paise sel p.customer_account_id (receivable p) (receivable-IsPaise p h),
            fixed-paise sel p.sales_revenue_account_id (p.subtotal -ℤ p.discount_total)
                (IsPaise-sub _ _ h.subtotal h.discount),
            surplus-amount sel p.sales_revenue_account_id p.shipping_charges h.shipping,
            charge-amount sel p.tds_account_id p.tds_amount h.tds,
            charge-amount sel p.tcs_account_id p.tcs_amount h.tcs,
            swing-paise sel p.round_off_account_id p.customer_account_id p.round_off_amount
                h.round_off,
          )
          (omega int_laws)
  ]

  invoice-Ready : Ready (invoice_appends p)
  unfolding invoice_appends
  invoice-Ready = elim (Bool-cases p.is_rcm) [
    | inl rcm ↦ simp rcm (tt, (tt, (h.owed, (h.sold, (tt, party_debited-Ready _ _ _ _)))))
    | inr taxed ↦ simp taxed (
      tt,
      (
        tt,
        (
          h.owed,
          (h.sold, (tt, Ready-append _ _ (tax_lines-Ready _ _ _) (party_debited-Ready _ _ _ _))),
        ),
      ),
    )
  ]

  invoice_lines : 2 ≤ fixed_count (invoice_appends p)
  unfolding invoice_appends
  invoice_lines = elim (Bool-cases p.is_rcm) [
    | inl rcm ↦ simp rcm (omega arith)
    | inr taxed ↦ simp taxed (omega arith)
  ]

-- On the whole, what is missing is what the seller has to account for and has no account for.
invoice_balance : (p : Invoice) → invoice_effect p all_accounts ≡ invoice_unposted p
unfolding receivable
invoice_balance p = elim (Bool-cases p.is_rcm) [
  | inl rcm ↦ simp (rcm, to_account-all, rounding-all) (omega int_laws)
  | inr taxed ↦ simp (taxed, to_account-all, taxes_to_accounts-all, rounding-all) (omega int_laws)
]

-- A billable invoice is posted exactly where no tax, TDS or TCS amount is left without an account on
-- balance; else it is refused as out of balance. The entry debits the customer with the net sale,
-- the shipping and the tax, less TDS and plus TCS, credits the revenue and the taxes, and moves the
-- rounding difference between the customer and the round-off account, and does nothing else.
pub create_invoice_posting-Posted :
    (p : Invoice)
    → IsBillable p
    → Posted (invoice_unposted p) (invoice_effect p) (create_invoice_posting p)
unfolding create_invoice_posting
create_invoice_posting-Posted p h =
    Settles-Posted (invoice_appends p) (invoice_unposted p) (invoice_effect p)
      (invoice_dues p h all_accounts ∙ invoice_balance p) (invoice_dues p h) _
      (post-Settles _ _ _ _ _ _ (invoice_appends p) (invoice-Ready p h) (invoice_lines p h))
