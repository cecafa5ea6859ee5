-- ===== src/Tests/GstTests.antt =====
-- Supplies, and companies that ask for a tax rate.
use bookkeeping.Base.{
  All, List, [], codes, err, false, if◌then◌else◌, ok, refl, some, true, ℕ, ◌*◌, ◌+◌, ◌↔◌, ◌∷◌, ◌≡◌,
  ◌≤◌,
}
use bookkeeping.Gst.Decimals.{
  Decimal, exceeds_hundred, half_up, is_negative, quantize_decimal, quantize_reporting,
}
use bookkeeping.Gst.Engine.{
  Supply, bad_cess_rate, bad_gst_rate, calculate_tax, components, half_rate, is_intra_state,
  negative_base, percentage, split_intrastate_gst_amount, split_of, tax_split,
}
use bookkeeping.Gst.FilingLock.{
  GstReturn, ensure_gst_period_mutable, ensure_outward_period_mutable, is_filed_for, period_filed,
}
use bookkeeping.Gst.FilingLockLaws.{Closes, ensure_outward_period_mutable_iff}
use bookkeeping.Gst.Modes.{
  Tenant, find_tenant, gst_composition, gst_regular, other_supply, resolve_gst_rate,
}
use bookkeeping.Gst.Routes.{Route, calculate_tax-Route, calculate_tax_refuses, no_outward_gst}
use bookkeeping.Gst.StateCodes.{cleaned, is_space, lstrip, rstrip, strip}
use bookkeeping.Gst.Totals.{calculate_tax_totals, gst_part, gst_part_accurate}
use bookkeeping.Int.{pos}

abbrev decimal : ℕ → ℕ → Decimal
decimal coefficient places = record { coefficient = pos coefficient; places = places }

-- 99.99 at 18 %, with a cess of 1 %, within Telangana.
abbrev supply : Supply
supply = record {
  origin_state_code = some (codes "36");
  place_of_supply_state_code = some (codes " 36 ");
  base_amount = decimal 9_999 2;
  gst_rate = decimal 18 0;
  cess_rate = decimal 1 0;
  is_rcm = false;
  force_igst = false;
}

supply_taxed : calculate_tax supply ≡ ok (split_of supply)
unfolding calculate_tax is_negative exceeds_hundred
supply_taxed = refl

-- CGST of 9.00, SGST of 9.00 and a cess of 1.00.
supply_total : (split_of supply).total_amount ≡ 1_189_900
unfolding split_of components is_intra_state cleaned strip lstrip rstrip is_space half_rate
    tax_split split_intrastate_gst_amount percentage quantize_decimal quantize_reporting half_up
supply_total = refl

calculate_tax_totals_example :
    let t = split_of supply in
    let base = quantize_decimal supply.base_amount in
    (gst_part t ≡ quantize_reporting (percentage base (quantize_decimal supply.gst_rate)))
    × (t.total_tax ≡ gst_part t + t.cess_amount)
    × (t.cess_amount ≡ quantize_reporting (percentage base (quantize_decimal supply.cess_rate)))
    × (t.base_amount ≡ quantize_reporting base)
    × (t.total_amount ≡ t.base_amount + (if supply.is_rcm then 0 else t.total_tax))
calculate_tax_totals_example = calculate_tax_totals supply supply_taxed

gst_part_accurate_example :
    let exact = quantize_decimal supply.base_amount * quantize_decimal supply.gst_rate in
    (gst_part (split_of supply) * 1_000_000 ≤ exact + 50_500_000)
    × (exact ≤ gst_part (split_of supply) * 1_000_000 + 50_500_000)
gst_part_accurate_example = gst_part_accurate supply supply_taxed

calculate_tax-Route_example :
    Route supply
      (percentage (quantize_decimal supply.base_amount) (quantize_decimal supply.gst_rate))
      (split_of supply)
calculate_tax-Route_example = calculate_tax-Route supply supply_taxed

calculate_tax_refuses_example : calculate_tax (record supply { gst_rate = decimal 101 0 }) ≡ (
    if false
    then err negative_base
    else if true
    then err bad_gst_rate
    else if false
    then err bad_cess_rate
    else ok (split_of (record supply { gst_rate = decimal 101 0 })))
unfolding is_negative exceeds_hundred
calculate_tax_refuses_example = calculate_tax_refuses (record supply { gst_rate = decimal 101 0 })

abbrev elsewhere : Supply
elsewhere = record supply {
  origin_state_code = some (codes "36");
  place_of_supply_state_code = some (codes "27");
  force_igst = false;
}

elsewhere_taxed : calculate_tax elsewhere ≡ ok (split_of elsewhere)
unfolding calculate_tax is_negative exceeds_hundred
elsewhere_taxed = refl

abbrev companies : List Tenant
companies =
    record { id = 1; tax_mode = gst_regular; deleted = false }
    ∷ record { id = 2; tax_mode = gst_composition; deleted = false }
    ∷ []

-- The second company asks for 18 %.
abbrev composed : Supply
composed = record supply { gst_rate = resolve_gst_rate companies 2 (decimal 18 0) other_supply }

composed_taxed : calculate_tax composed ≡ ok (split_of composed)
unfolding calculate_tax is_negative exceeds_hundred resolve_gst_rate find_tenant
composed_taxed = refl

composed_found :
    find_tenant 2 companies ≡ some (record { id = 2; tax_mode = gst_composition; deleted = false })
unfolding find_tenant
composed_found = refl

no_outward_gst_example : gst_part (split_of composed) ≡ 0
no_outward_gst_example =
    no_outward_gst companies 2 _ (decimal 18 0) other_supply composed composed_found refl refl
      composed_taxed

abbrev filed : List GstReturn
filed =
    record {
      tenant_id = 1;
      return_type = "GSTR1";
      period_start = 19_814;
      period_end = 19_843;
      status = "FILED";
    }
    ∷ []

outward_closed : ensure_outward_period_mutable filed 1 19_820 ≡ err period_filed
unfolding ensure_outward_period_mutable ensure_gst_period_mutable is_filed_for
outward_closed = refl

ensure_outward_period_mutable_iff_example :
    (ensure_outward_period_mutable filed 1 19_820 ≡ ok tt) ↔ All (λ r. ¬ Closes 1 19_820 r) filed
ensure_outward_period_mutable_iff_example = ensure_outward_period_mutable_iff filed 1 19_820
