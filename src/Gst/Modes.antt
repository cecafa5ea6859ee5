-- ===== src/Gst/Modes.antt =====
-- The company's tax mode: `resolve_gst_rate`, `resolve_inward_gst_rate`, `can_claim_itc` and
-- `is_gst_enabled` (backend/src/domains/taxation/services.py).
use bookkeeping.Base.{
  Bool, List, Option, Result, [], false, if◌then◌else◌, none, not, ok, raise_if, some, true, ℕ,
  ◌&&◌, ◌==◌, ◌>>◌, ◌||◌, ◌∷◌,
}
use bookkeeping.Gst.Decimals.{Decimal, exceeds_hundred, is_negative}
use bookkeeping.Int.{pos}

pub data TaxMode : Type 0 where
  non_gst gst_composition gst_regular : TaxMode

pub data SupplyType : Type 0 where
  export_without_tax sez_without_tax other_supply : SupplyType

pub record Tenant : Type 0 where
  pub id : ℕ
  pub tax_mode : TaxMode
  -- `deleted_at` is set
  pub deleted : Bool

-- The query for the live tenant of an identifier; the identifier is the primary key.
unfoldable pub find_tenant : ℕ → List Tenant → Option Tenant
find_tenant id [] = none
find_tenant id (t ∷ ts) = if t.id == id && not t.deleted then some t else find_tenant id ts

abbrev pub collects_no_gst : TaxMode → Bool
collects_no_gst non_gst = true
collects_no_gst gst_composition = true
collects_no_gst gst_regular = false

abbrev pub is_without_tax : SupplyType → Bool
is_without_tax export_without_tax = true
is_without_tax sez_without_tax = true
is_without_tax other_supply = false

abbrev pub no_rate : Decimal
no_rate = record { coefficient = pos 0; places = 2 }

abbrev rate_by_supply : SupplyType → Decimal → Decimal
rate_by_supply supply requested = if is_without_tax supply then no_rate else requested

unfoldable pub resolve_gst_rate : List Tenant → ℕ → Decimal → SupplyType → Decimal
resolve_gst_rate db tenant requested supply = elim (find_tenant tenant db) [
  | none ↦ rate_by_supply supply requested
  | some t ↦ if collects_no_gst t.tax_mode then no_rate else rate_by_supply supply requested
]

pub data InwardError : Type 0 where
  inward_rate_out_of_range : InwardError

unfoldable pub resolve_inward_gst_rate : Decimal → Result InwardError Decimal
resolve_inward_gst_rate requested = do
  raise_if (is_negative requested || exceeds_hundred requested) inward_rate_out_of_range
  ok requested

abbrev is_regular : TaxMode → Bool
is_regular gst_regular = true
is_regular _ = false

unfoldable pub can_claim_itc : List Tenant → ℕ → Bool → Bool
can_claim_itc db tenant requested_eligibility = elim (find_tenant tenant db) [
  | none ↦ false
  | some t ↦ requested_eligibility && is_regular t.tax_mode
]

-- The property `gst_enabled` of a tenant.
abbrev gst_enabled : TaxMode → Bool
gst_enabled non_gst = false
gst_enabled gst_composition = true
gst_enabled gst_regular = true

unfoldable pub is_gst_enabled : List Tenant → ℕ → Bool
is_gst_enabled db tenant = elim (find_tenant tenant db) [
  | none ↦ false
  | some t ↦ gst_enabled t.tax_mode
]
