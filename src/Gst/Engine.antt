-- ===== src/Gst/Engine.antt =====
-- `split_intrastate_gst_amount` and `GSTEngine.calculate_tax`
-- (backend/src/domains/taxation/services.py). Amounts and rates are in ten-thousandths.
use bookkeeping.Base.{
  Bool, List, Option, Result, false, if◌then◌else◌, none, not, ok, raise_if, some, ℕ, ◌&&◌, ◌*◌,
  ◌+◌, ◌-◌, ◌/◌, ◌>>◌, ◌||◌,
}
use bookkeeping.Gst.Decimals.{
  Decimal, exceeds_hundred, half_up, is_negative, quantize_decimal, quantize_reporting,
}
use bookkeeping.Gst.StateCodes.{cleaned, is_empty, is_in, text_eq, union_territories}

pub data GstError : Type 0 where
  negative_base bad_gst_rate bad_cess_rate : GstError

pub record TaxSplit : Type 0 where
  pub cgst_rate : ℕ
  pub cgst_amount : ℕ
  pub sgst_rate : ℕ
  pub sgst_amount : ℕ
  pub igst_rate : ℕ
  pub igst_amount : ℕ
  pub utgst_rate : ℕ
  pub utgst_amount : ℕ
  pub cess_rate : ℕ
  pub cess_amount : ℕ
  pub total_tax : ℕ
  pub base_amount : ℕ
  pub total_amount : ℕ

-- The half of a number of paise is a number of ten-thousandths.
unfoldable pub split_intrastate_gst_amount : ℕ → ℕ × ℕ
unfolding quantize_reporting
split_intrastate_gst_amount gst_amount =
    let gst_amount_q = quantize_reporting gst_amount in
    let cgst = quantize_reporting (gst_amount_q / 2) in
    (cgst, quantize_reporting (gst_amount_q - cgst))

-- `quantize_decimal(base_amount_q * (rate_q / 100))`: the product counts in units of 10⁻¹⁰.
unfoldable pub percentage : ℕ → ℕ → ℕ
unfolding half_up
percentage base_amount_q rate_q = half_up (base_amount_q * rate_q) 1_000_000

-- Rates and amounts of the components before the last rounding.
pub record Components : Type 0 where
  pub cgst : ℕ × ℕ
  pub sgst : ℕ × ℕ
  pub igst : ℕ × ℕ
  pub utgst : ℕ × ℕ

unfoldable pub is_intra_state : Option (List ℕ) → Option (List ℕ) → Bool → Bool
unfolding cleaned
is_intra_state origin_state_code place_of_supply_state_code force_igst =
    let origin = cleaned origin_state_code in
    let place = cleaned place_of_supply_state_code in
    not (is_empty origin) && not (is_empty place) && text_eq origin place && not force_igst

-- The membership test takes the place of supply as it came.
abbrev pub is_union_territory : Option (List ℕ) → Bool
is_union_territory none = false
is_union_territory (some cs) = is_in cs union_territories

-- `quantize_reporting(gst_rate_q / Decimal("2.00"))`: the exact half may end in half a
-- ten-thousandth, and is rounded once.
unfoldable pub half_rate : ℕ → ℕ
half_rate gst_rate_q = (gst_rate_q + 100) / 200 * 100

unfoldable pub components : Bool → Bool → ℕ → ℕ → Components
unfolding split_intrastate_gst_amount half_rate
components intra territory gst_rate_q gst_amount =
    let (cgst_amount, state_tax_amount) = split_intrastate_gst_amount gst_amount in
    let split_rate = half_rate gst_rate_q in
    if intra
    then if territory
      then record {
        cgst = (split_rate, cgst_amount);
        sgst = (0, 0);
        igst = (0, 0);
        utgst = (split_rate, state_tax_amount);
      }
      else record {
        cgst = (split_rate, cgst_amount);
        sgst = (split_rate, state_tax_amount);
        igst = (0, 0);
        utgst = (0, 0);
      }
    else record {
      cgst = (0, 0);
      sgst = (0, 0);
      igst = (quantize_reporting gst_rate_q, gst_amount);
      utgst = (0, 0);
    }

unfoldable pub tax_split : Components → ℕ → ℕ → ℕ → Bool → TaxSplit
unfolding quantize_reporting
tax_split c base_amount_q cess_rate_q calculated_cess_amount is_rcm =
    let cgst_amount = quantize_reporting c.cgst.1 in
    let sgst_amount = quantize_reporting c.sgst.1 in
    let igst_amount = quantize_reporting c.igst.1 in
    let utgst_amount = quantize_reporting c.utgst.1 in
    let cess_amount = quantize_reporting calculated_cess_amount in
    let total_tax = cgst_amount + sgst_amount + igst_amount + utgst_amount + cess_amount in
    let base = quantize_reporting base_amount_q in
    record {
      cgst_rate = c.cgst.0;
      cgst_amount = cgst_amount;
      sgst_rate = c.sgst.0;
      sgst_amount = sgst_amount;
      igst_rate = c.igst.0;
      igst_amount = igst_amount;
      utgst_rate = c.utgst.0;
      utgst_amount = utgst_amount;
      cess_rate = quantize_reporting cess_rate_q;
      cess_amount = cess_amount;
      total_tax = total_tax;
      base_amount = base;
      total_amount = if is_rcm then base else base + total_tax;
    }

pub record Supply : Type 0 where
  pub origin_state_code : Option (List ℕ)
  pub place_of_supply_state_code : Option (List ℕ)
  pub base_amount : Decimal
  pub gst_rate : Decimal
  pub cess_rate : Decimal
  pub is_rcm : Bool
  pub force_igst : Bool

unfoldable pub split_of : Supply → TaxSplit
split_of s =
    let base_amount_q = quantize_decimal s.base_amount in
    let gst_rate_q = quantize_decimal s.gst_rate in
    let cess_rate_q = quantize_decimal s.cess_rate in
    let intra = is_intra_state s.origin_state_code s.place_of_supply_state_code s.force_igst in
    let territory = is_union_territory s.place_of_supply_state_code in
    tax_split (components intra territory gst_rate_q (percentage base_amount_q gst_rate_q))
      base_amount_q cess_rate_q (percentage base_amount_q cess_rate_q) s.is_rcm

-- `GSTEngine.calculate_tax`
unfoldable pub calculate_tax : Supply → Result GstError TaxSplit
calculate_tax s = do
  raise_if (is_negative s.base_amount) negative_base
  raise_if (is_negative s.gst_rate || exceeds_hundred s.gst_rate) bad_gst_rate
  raise_if (is_negative s.cess_rate || exceeds_hundred s.cess_rate) bad_cess_rate
  ok (split_of s)
