-- ===== src/Gst/Routes.antt =====
-- Which components a supply has, and which supplies are refused.
use bookkeeping.Base.{
  Bool, List, Option-cases, [], ap, arith, err, false, if◌then◌else◌, inl, inr, ok, refl, some,
  true, ℕ, ◌||◌, ◌↔◌, ◌∙◌, ◌≡◌, ◌≢◌, ◌⊎◌,
}
use bookkeeping.Gst.Decimals.{
  Decimal, exceeds_hundred, is_negative, quantize_decimal, quantize_reporting,
}
use bookkeeping.Gst.Engine.{
  Supply, TaxSplit, bad_cess_rate, bad_gst_rate, calculate_tax, components, is_intra_state,
  is_union_territory, negative_base, percentage, split_intrastate_gst_amount, split_of, tax_split,
}
use bookkeeping.Gst.Modes.{
  SupplyType, Tenant, can_claim_itc, collects_no_gst, find_tenant, gst_regular, no_rate,
  resolve_gst_rate,
}
use bookkeeping.Gst.Places.{
  InTerritory, InTerritory-is_union_territory, is_intra_state_iff, is_union_territory-InTerritory,
}
use bookkeeping.Gst.StateCodes.{cleaned}
use bookkeeping.Gst.Totals.{calculate_tax_ok, calculate_tax_totals, gst_part}

-- Both codes, freed of white space, are there and equal, and the integrated tax is not forced.
abbrev pub Within : Supply → Type 0
Within s =
    (cleaned s.origin_state_code ≡ cleaned s.place_of_supply_state_code)
    × (cleaned s.origin_state_code ≢ [])
    × (s.force_igst ≡ false)

-- Half to the centre, half to the union territory.
abbrev pub ToTerritory : ℕ → TaxSplit → Type 0
ToTerritory gst t =
    (t.igst_amount ≡ 0)
    × (t.cgst_amount ≡ (split_intrastate_gst_amount gst).0)
    × (t.sgst_amount ≡ 0)
    × (t.utgst_amount ≡ (split_intrastate_gst_amount gst).1)

-- Half to the centre, half to the state.
abbrev pub ToState : ℕ → TaxSplit → Type 0
ToState gst t =
    (t.igst_amount ≡ 0)
    × (t.cgst_amount ≡ (split_intrastate_gst_amount gst).0)
    × (t.sgst_amount ≡ (split_intrastate_gst_amount gst).1)
    × (t.utgst_amount ≡ 0)

abbrev pub Integrated : ℕ → TaxSplit → Type 0
Integrated gst t =
    (t.igst_amount ≡ quantize_reporting gst)
    × (t.cgst_amount ≡ 0)
    × (t.sgst_amount ≡ 0)
    × (t.utgst_amount ≡ 0)

-- The three ways that the tax of a supply can go.
abbrev pub Route : Supply → ℕ → TaxSplit → Type 0
Route s gst t =
    (Within s × InTerritory s.place_of_supply_state_code × ToTerritory gst t)
    ⊎ ((Within s × (¬ InTerritory s.place_of_supply_state_code) × ToState gst t)
        ⊎ ((¬ Within s) × Integrated gst t))

module _ (rate gst base cess_rate cess : ℕ) (rcm : Bool) where
  split-ToTerritory :
      ToTerritory gst (tax_split (components true true rate gst) base cess_rate cess rcm)
  unfolding tax_split components
  split-ToTerritory = omega arith

  split-ToState : ToState gst (tax_split (components true false rate gst) base cess_rate cess rcm)
  unfolding tax_split components
  split-ToState = omega arith

  split-Integrated :
      (territory : Bool)
      → Integrated gst (tax_split (components false territory rate gst) base cess_rate cess rcm)
  unfolding tax_split components
  split-Integrated territory = omega arith

  tax_split-Route :
      (s : Supply) (intra territory : Bool)
      → is_intra_state s.origin_state_code s.place_of_supply_state_code s.force_igst ≡ intra
      → is_union_territory s.place_of_supply_state_code ≡ territory
      → Route s gst (tax_split (components intra territory rate gst) base cess_rate cess rcm)
  tax_split-Route s true true i u =
      inl ((is_intra_state_iff _ _ _).0 i, is_union_territory-InTerritory _ u, split-ToTerritory)
  tax_split-Route s true false i u = inr (
      inl (
        (is_intra_state_iff _ _ _).0 i,
        λ h.
            let held = InTerritory-is_union_territory s.place_of_supply_state_code h in
            ground arith,
        split-ToState,
      ))
  tax_split-Route s false territory i u = inr (
      inr (
        λ h.
            let held =
              (is_intra_state_iff s.origin_state_code s.place_of_supply_state_code s.force_igst).1
                h in
            ground arith,
        split-Integrated territory,
      ))

-- A supply is within a state where both codes, freed of white space, are there and equal and the
-- integrated tax is not forced. Within a state there is no integrated tax, and the state's half goes to
-- UTGST where the place of supply, white space and all, is the code 04, 25, 26, 31, 35 or 38, and to
-- SGST elsewhere. Otherwise all of the tax is integrated.
pub calculate_tax-Route :
    (s : Supply) {t : TaxSplit}
    → calculate_tax s ≡ ok t
    → Route s (percentage (quantize_decimal s.base_amount) (quantize_decimal s.gst_rate)) t
unfolding split_of
calculate_tax-Route s h =
    rw (calculate_tax_ok s h).0 (tax_split-Route _ _ _ _ _ s.is_rcm s _ _ refl refl)

-- A supply is refused exactly where the base is negative or a rate is outside 0 to 100; the base is
-- looked at first, then the tax rate.
pub calculate_tax_refuses :
    (s : Supply)
    → let bad_rate = is_negative s.gst_rate || exceeds_hundred s.gst_rate in
      let bad_cess = is_negative s.cess_rate || exceeds_hundred s.cess_rate in
      calculate_tax s ≡ (
        if is_negative s.base_amount
        then err negative_base
        else if bad_rate
        then err bad_gst_rate
        else if bad_cess
        then err bad_cess_rate
        else ok (split_of s))
unfolding calculate_tax
calculate_tax_refuses s = ground arith

-- A company outside regular GST collects none, whatever it asks for: the tax on any of its outward
-- supplies is nothing but cess.
pub no_outward_gst :
    (db : List Tenant) (tenant : ℕ) (t : Tenant) (requested : Decimal) (supply : SupplyType)
    (s : Supply) {u : TaxSplit}
    → find_tenant tenant db ≡ some t
    → collects_no_gst t.tax_mode ≡ true
    → s.gst_rate ≡ resolve_gst_rate db tenant requested supply
    → calculate_tax s ≡ ok u
    → gst_part u ≡ 0
unfolding resolve_gst_rate percentage quantize_decimal quantize_reporting
no_outward_gst db tenant t requested supply s f c r h =
    let none_asked : resolve_gst_rate db tenant requested supply ≡ no_rate = ground arith in
    (calculate_tax_totals s h).0
    ∙ ap
        (λ d. quantize_reporting (percentage (quantize_decimal s.base_amount) (quantize_decimal d)))
        (r ∙ none_asked)
    ∙ omega arith

-- Input credit is claimed exactly by a live company under regular GST that asks for it.
pub can_claim_itc_iff :
    (db : List Tenant) (tenant : ℕ) (asked : Bool)
    → (can_claim_itc db tenant asked ≡ true) ↔ (
        (asked ≡ true)
        × ((t : Tenant) × (find_tenant tenant db ≡ some t) × (t.tax_mode ≡ gst_regular)))
unfolding can_claim_itc
can_claim_itc_iff db tenant asked = elim (Option-cases (find_tenant tenant db)) [
  | inl missing ↦ (λ h. absurd (ground arith), λ h. absurd (ground (arith, h.1.1)))
  | inr (t, found) ↦
      (λ h. (ground arith, (t, found, ground arith)), λ h. ground (arith, h.1.1, h.1.2))
]
