-- ===== src/Posting/Settlement/OfDocuments.antt =====
-- Posting expenses, notes and returns.
use Prim.Native.String.{◌++◌ as concat}
use bookkeeping.Base.{Bool, arith, ℕ, ◌∙◌, ◌∷◌, ◌≡◌}
use bookkeeping.Int.{int_laws, neg, pos, ℤ, ◌+ℤ◌, ◌-ℤ◌, ◌<ℤ◌}
use bookkeeping.Money.{IsPaise, IsPaise-add}
use bookkeeping.Posting.Amounts.{
  Posted, Settles-Posted, TaxesInPaise, fixed-paise, rounding, rounding-all, swing-paise,
  tax_charge-amounts, tax_total-IsPaise, taxes_to_accounts, taxes_to_accounts-all, unposted_taxes,
}
use bookkeeping.Posting.Documents.{Document, create_expense_posting, expense_appends, total}
use bookkeeping.Posting.Draft.{credit, debit}
use bookkeeping.Posting.Effect.{dues, dues-append, on}
use bookkeeping.Posting.Lines.{always, party_credited_last, tax_lines}
use bookkeeping.Posting.Notes.{
  create_credit_note_posting, create_debit_note_posting, credit_note_appends, debit_note_appends,
}
use bookkeeping.Posting.Outcome.{all_accounts, post-Settles}
use bookkeeping.Posting.Parts.{
  Ready-append, fixed_count-append, party_credited-Ready, party_credited-dues,
  party_credited_last-Ready, party_credited_last-dues, party_debited-Ready, party_debited-dues,
  tax_lines-Ready, tax_lines-dues,
}
use bookkeeping.Posting.Returns.{
  create_purchase_return_posting, create_sales_return_posting, purchase_return_appends,
  sales_return_appends,
}

-- A document in whole paise, with a positive amount.
pub record IsPostable (p : Document) : Type 0 where
  pub subtotal : IsPaise p.subtotal
  pub taxes : TaxesInPaise p.taxes
  pub round_off : IsPaise p.round_off_amount
  pub positive_subtotal : pos 0 <ℤ p.subtotal
  pub positive_total : pos 0 <ℤ total p

-- Debits less credits on the selected accounts, apart from a rounding difference: the party is
-- debited with the total, the other account and the taxes are credited.
abbrev pub party_debit : Document → (ℕ → Bool) → ℤ
party_debit p sel =
    on (sel p.party_account_id) (total p)
    -ℤ on (sel p.nominal_account_id) p.subtotal
    -ℤ taxes_to_accounts sel p.taxes

abbrev pub rounded : Document → (ℕ → Bool) → ℤ
rounded p sel = rounding sel p.round_off_account_id p.party_account_id p.round_off_amount

total-IsPaise : (p : Document) → IsPostable p → IsPaise (total p)
unfolding total
total-IsPaise p h = IsPaise-add _ _ h.subtotal (tax_total-IsPaise p.taxes h.taxes)

party_debit-all : (p : Document) → party_debit p all_accounts ≡ unposted_taxes p.taxes
unfolding total
party_debit-all p = simp taxes_to_accounts-all (omega int_laws)

expense_dues :
    (p : Document)
    → IsPostable p
    → (sel : ℕ → Bool) → dues sel (expense_appends p) ≡ neg (party_debit p sel +ℤ rounded p sel)
unfolding expense_appends
expense_dues p h sel =
    simp
      (
        dues-append,
        party_credited_last-dues,
        tax_lines-dues,
        tax_charge-amounts sel p.taxes h.taxes,
        fixed-paise sel p.party_account_id (total p) (total-IsPaise p h),
        fixed-paise sel p.nominal_account_id p.subtotal h.subtotal,
        swing-paise sel p.round_off_account_id p.party_account_id p.round_off_amount h.round_off,
      )
      (omega int_laws)

-- An expense in whole paise is posted exactly where no tax amount is left without an account; else it is
-- refused as out of balance. The party is credited with the total and with the rounding difference, and the other account and
-- the taxes are debited; nothing else is moved.
pub create_expense_posting-Posted :
    (p : Document)
    → IsPostable p
    → Posted
        (neg (unposted_taxes p.taxes))
        (λ sel. neg (party_debit p sel +ℤ rounded p sel))
        (create_expense_posting p)
unfolding create_expense_posting expense_appends
create_expense_posting-Posted p h =
    Settles-Posted (expense_appends p) (neg (unposted_taxes p.taxes))
      (λ sel. neg (party_debit p sel +ℤ rounded p sel))
      (expense_dues p h all_accounts ∙ simp (party_debit-all, rounding-all) (omega int_laws))
      (expense_dues p h) _
      (post-Settles _ _ _ _ _ _ (expense_appends p)
        (
          h.positive_subtotal,
          Ready-append _ _ (tax_lines-Ready _ _ _)
              (h.positive_total, party_credited_last-Ready _ _ _ _),
        )
        (omega (
          arith,
          fixed_count-append (tax_lines debit "Input" p.taxes) (
              always p.party_account_id (total p) credit (concat "Cash/Bank: " p.number)
              ∷ party_credited_last (concat "Round-off: " p.number) p.round_off_account_id
                  p.party_account_id p.round_off_amount),
        )))

credit_note_dues :
    (p : Document)
    → IsPostable p
    → (sel : ℕ → Bool) → dues sel (credit_note_appends p) ≡ neg (party_debit p sel +ℤ rounded p sel)
unfolding credit_note_appends
credit_note_dues p h sel =
    simp
      (
        dues-append,
        party_credited-dues,
        tax_lines-dues,
        tax_charge-amounts sel p.taxes h.taxes,
        fixed-paise sel p.party_account_id (total p) (total-IsPaise p h),
        fixed-paise sel p.nominal_account_id p.subtotal h.subtotal,
        swing-paise sel p.round_off_account_id p.party_account_id p.round_off_amount h.round_off,
      )
      (omega int_laws)

-- A credit note in whole paise is posted exactly where no tax amount is left without an account; else it is
-- refused as out of balance. The party is credited with the total and with the rounding difference, and the other account and
-- the taxes are debited; nothing else is moved.
pub create_credit_note_posting-Posted :
    (p : Document)
    → IsPostable p
    → Posted
        (neg (unposted_taxes p.taxes))
        (λ sel. neg (party_debit p sel +ℤ rounded p sel))
        (create_credit_note_posting p)
unfolding create_credit_note_posting credit_note_appends
create_credit_note_posting-Posted p h =
    Settles-Posted (credit_note_appends p) (neg (unposted_taxes p.taxes))
      (λ sel. neg (party_debit p sel +ℤ rounded p sel))
      (credit_note_dues p h all_accounts ∙ simp (party_debit-all, rounding-all) (omega int_laws))
      (credit_note_dues p h) _
      (post-Settles _ _ _ _ _ _ (credit_note_appends p)
        (
          h.positive_subtotal,
          (
            h.positive_total,
            Ready-append _ _ (tax_lines-Ready _ _ _) (party_credited-Ready _ _ _ _),
          ),
        )
        (omega arith))

debit_note_dues :
    (p : Document)
    → IsPostable p
    → (sel : ℕ → Bool) → dues sel (debit_note_appends p) ≡ party_debit p sel +ℤ rounded p sel
unfolding debit_note_appends
debit_note_dues p h sel =
    simp
      (
        dues-append,
        party_debited-dues,
        tax_lines-dues,
        tax_charge-amounts sel p.taxes h.taxes,
        fixed-paise sel p.party_account_id (total p) (total-IsPaise p h),
        fixed-paise sel p.nominal_account_id p.subtotal h.subtotal,
        swing-paise sel p.round_off_account_id p.party_account_id p.round_off_amount h.round_off,
      )
      (omega int_laws)

-- A debit note in whole paise is posted exactly where no tax amount is left without an account; else it is
-- refused as out of balance. The party is debited with the total and with the rounding difference, and the other account and
-- the taxes are credited; nothing else is moved.
pub create_debit_note_posting-Posted :
    (p : Document)
    → IsPostable p
    → Posted
        (unposted_taxes p.taxes)
        (λ sel. party_debit p sel +ℤ rounded p sel)
        (create_debit_note_posting p)
unfolding create_debit_note_posting debit_note_appends
create_debit_note_posting-Posted p h =
    Settles-Posted (debit_note_appends p) (unposted_taxes p.taxes)
      (λ sel. party_debit p sel +ℤ rounded p sel)
      (debit_note_dues p h all_accounts ∙ simp (party_debit-all, rounding-all) (omega int_laws))
      (debit_note_dues p h) _
      (post-Settles _ _ _ _ _ _ (debit_note_appends p)
        (
          h.positive_total,
          (
            h.positive_subtotal,
            Ready-append _ _ (tax_lines-Ready _ _ _) (party_debited-Ready _ _ _ _),
          ),
        )
        (omega arith))

sales_return_dues :
    (p : Document)
    → IsPostable p
    → (sel : ℕ → Bool)
    → dues sel (sales_return_appends p) ≡ neg (party_debit p sel +ℤ rounded p sel)
unfolding sales_return_appends
sales_return_dues p h sel =
    simp
      (
        dues-append,
        party_credited-dues,
        tax_lines-dues,
        tax_charge-amounts sel p.taxes h.taxes,
        fixed-paise sel p.party_account_id (total p) (total-IsPaise p h),
        fixed-paise sel p.nominal_account_id p.subtotal h.subtotal,
        swing-paise sel p.round_off_account_id p.party_account_id p.round_off_amount h.round_off,
      )
      (omega int_laws)

-- A sales return in whole paise is posted exactly where no tax amount is left without an account; else it is
-- refused as out of balance. The party is credited with the total and with the rounding difference, and the other account and
-- the taxes are debited; nothing else is moved.
pub create_sales_return_posting-Posted :
    (p : Document)
    → IsPostable p
    → Posted
        (neg (unposted_taxes p.taxes))
        (λ sel. neg (party_debit p sel +ℤ rounded p sel))
        (create_sales_return_posting p)
unfolding create_sales_return_posting sales_return_appends
create_sales_return_posting-Posted p h =
    Settles-Posted (sales_return_appends p) (neg (unposted_taxes p.taxes))
      (λ sel. neg (party_debit p sel +ℤ rounded p sel))
      (sales_return_dues p h all_accounts ∙ simp (party_debit-all, rounding-all) (omega int_laws))
      (sales_return_dues p h) _
      (post-Settles _ _ _ _ _ _ (sales_return_appends p)
        (
          h.positive_subtotal,
          (
            h.positive_total,
            Ready-append _ _ (tax_lines-Ready _ _ _) (party_credited-Ready _ _ _ _),
          ),
        )
        (omega arith))

purchase_return_dues :
    (p : Document)
    → IsPostable p
    → (sel : ℕ → Bool) → dues sel (purchase_return_appends p) ≡ party_debit p sel -ℤ rounded p sel
unfolding purchase_return_appends
purchase_return_dues p h sel =
    simp
      (
        dues-append,
        party_credited_last-dues,
        tax_lines-dues,
        tax_charge-amounts sel p.taxes h.taxes,
        fixed-paise sel p.party_account_id (total p) (total-IsPaise p h),
        fixed-paise sel p.nominal_account_id p.subtotal h.subtotal,
        swing-paise sel p.round_off_account_id p.party_account_id p.round_off_amount h.round_off,
      )
      (omega int_laws)

-- A purchase return in whole paise is posted exactly where no tax amount is left without an account; else it is
-- refused as out of balance. The party is debited with the total, and the other account and the taxes are credited; a positive
-- rounding difference is credited to the party, against the direction of the return.
pub create_purchase_return_posting-Posted :
    (p : Document)
    → IsPostable p
    → Posted
        (unposted_taxes p.taxes)
        (λ sel. party_debit p sel -ℤ rounded p sel)
        (create_purchase_return_posting p)
unfolding create_purchase_return_posting purchase_return_appends
create_purchase_return_posting-Posted p h =
    Settles-Posted (purchase_return_appends p) (unposted_taxes p.taxes)
      (λ sel. party_debit p sel -ℤ rounded p sel)
      (purchase_return_dues p h all_accounts
        ∙ simp (party_debit-all, rounding-all) (omega int_laws))
      (purchase_return_dues p h) _
      (post-Settles _ _ _ _ _ _ (purchase_return_appends p)
        (
          h.positive_total,
          (
            h.positive_subtotal,
            Ready-append _ _ (tax_lines-Ready _ _ _) (party_credited_last-Ready _ _ _ _),
          ),
        )
        (omega arith))
