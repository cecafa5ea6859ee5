-- ===== src/Gst/Totals.antt =====
-- What the tax split adds up to.
use bookkeeping.Base.{
  Bool, List, Option, arith, false, if◌then◌else◌, ok, true, ℕ, ◌%◌, ◌*◌, ◌+◌, ◌≡◌, ◌≤◌,
}
use bookkeeping.Gst.Decimals.{exceeds_hundred, is_negative, quantize_decimal, quantize_reporting}
use bookkeeping.Gst.Engine.{
  Supply, TaxSplit, calculate_tax, components, percentage, split_intrastate_gst_amount, split_of,
  tax_split,
}

-- The two halves of a rounded tax add up to it, and differ by one paisa at most, the larger to CGST.
pub split_halves :
    (gst_amount : ℕ)
    → let (cgst, state) = split_intrastate_gst_amount gst_amount in
      (cgst + state ≡ quantize_reporting gst_amount)
      × (state ≤ cgst)
      × (cgst ≤ state + 100)
      × (cgst % 100 ≡ 0)
      × (state % 100 ≡ 0)
unfolding split_intrastate_gst_amount
split_halves gst_amount = omega arith

-- The GST components of a split.
abbrev pub gst_part : TaxSplit → ℕ
gst_part t = t.cgst_amount + t.sgst_amount + t.igst_amount + t.utgst_amount

-- Whatever the route, the components add up to the rounded tax, and the document's total follows.
pub tax_split-totals :
    (intra territory : Bool) (rate gst base cess_rate cess : ℕ) (rcm : Bool)
    → let t = tax_split (components intra territory rate gst) base cess_rate cess rcm in
      (gst_part t ≡ quantize_reporting gst)
      × (t.total_tax ≡ gst_part t + t.cess_amount)
      × (t.cess_amount ≡ quantize_reporting cess)
      × (t.base_amount ≡ quantize_reporting base)
      × (t.total_amount ≡ t.base_amount + (if rcm then 0 else t.total_tax))
unfolding tax_split components
tax_split-totals true true rate gst base cess_rate cess true = omega arith
tax_split-totals true true rate gst base cess_rate cess false = omega arith
tax_split-totals true false rate gst base cess_rate cess true = omega arith
tax_split-totals true false rate gst base cess_rate cess false = omega arith
tax_split-totals false territory rate gst base cess_rate cess true = omega arith
tax_split-totals false territory rate gst base cess_rate cess false = omega arith

-- A call that returns has computed `split_of`, from a base that is not negative and rates in range.
pub calculate_tax_ok :
    (s : Supply) {t : TaxSplit}
    → calculate_tax s ≡ ok t
    → (t ≡ split_of s)
      × (is_negative s.base_amount ≡ false)
      × (is_negative s.gst_rate ≡ false)
      × (exceeds_hundred s.gst_rate ≡ false)
      × (is_negative s.cess_rate ≡ false)
      × (exceeds_hundred s.cess_rate ≡ false)
unfolding calculate_tax
calculate_tax_ok s h = ground arith

-- Every split that is returned adds up: the components come to the tax on the rounded base, rounded
-- to paise, with the cess beside it, and the total adds the tax to the base unless the buyer owes it.
pub calculate_tax_totals :
    (s : Supply) {t : TaxSplit}
    → calculate_tax s ≡ ok t
    → let base = quantize_decimal s.base_amount in
      (gst_part t ≡ quantize_reporting (percentage base (quantize_decimal s.gst_rate)))
      × (t.total_tax ≡ gst_part t + t.cess_amount)
      × (t.cess_amount ≡ quantize_reporting (percentage base (quantize_decimal s.cess_rate)))
      × (t.base_amount ≡ quantize_reporting base)
      × (t.total_amount ≡ t.base_amount + (if s.is_rcm then 0 else t.total_tax))
unfolding split_of
calculate_tax_totals s h = rw (calculate_tax_ok s h).0 (tax_split-totals _ _ _ _ _ _ _ s.is_rcm)

-- The same supply to another place, or with the integrated tax forced, costs the same.
pub place_is_neutral :
    (s : Supply) (origin place : Option (List ℕ)) (force : Bool) {t u : TaxSplit}
    → calculate_tax s ≡ ok t
    → calculate_tax (record s {
      origin_state_code = origin;
      place_of_supply_state_code = place;
      force_igst = force;
    })
      ≡ ok u
    → (t.total_tax ≡ u.total_tax) × (t.total_amount ≡ u.total_amount)
place_is_neutral s origin place force h k =
    let here = calculate_tax_totals s h in let there = calculate_tax_totals _ k in ground arith

-- Rounding twice, to ten-thousandths and then to paise, moves the tax by at most half a paisa and
-- half a ten-thousandth from the exact tax on the rounded base.
pub gst_part_accurate :
    (s : Supply) {t : TaxSplit}
    → calculate_tax s ≡ ok t
    → let exact = quantize_decimal s.base_amount * quantize_decimal s.gst_rate in
      (gst_part t * 1_000_000 ≤ exact + 50_500_000) × (exact ≤ gst_part t * 1_000_000 + 50_500_000)
unfolding percentage quantize_reporting
gst_part_accurate s h = let totals = calculate_tax_totals s h in omega arith
