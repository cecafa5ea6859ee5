-- ===== src/Inventory/Warehouses.antt =====
-- `resolve_default_warehouse_id`, `resolve_reversal_warehouse_id`, `get_warehouse_stock` and
-- `get_stock_balance_after` (backend/src/domains/inventory/services.py). Times are numbers.
use text.Mathlib.Text.{◌==◌ as str_eq}
use bookkeeping.Base.{
  Bool, List, Option, String, [], false, if◌then◌else◌, ltb, none, not, or_else, some, ℕ, ◌&&◌,
  ◌==◌, ◌||◌, ◌∷◌,
}
use bookkeeping.Int.{pos, ℤ, ◌+ℤ◌}

pub record Branch : Type 0 where
  pub id : ℕ
  pub tenant_id : ℕ
  pub is_active : Bool
  pub created_at : ℕ
  -- `deleted_at` is set
  pub deleted : Bool

-- The `default_warehouse_id` of the tenant's extra settings: missing or empty, no UUID, or a UUID.
pub data Configured : Type 0 where
  unset malformed : Configured
  chosen : ℕ → Configured

pub record StockMovement : Type 0 where
  pub tenant_id : ℕ
  pub product_id : ℕ
  pub warehouse_id : Option ℕ
  pub quantity : ℤ
  pub balance_quantity : ℤ
  pub reference_type : String
  pub reference_id : ℕ
  pub created_at : ℕ

-- The tenant's active branches.
abbrev pub is_usable : ℕ → Branch → Bool
is_usable tenant b = b.tenant_id == tenant && b.is_active && not b.deleted

unfoldable pub usable_with_id : ℕ → ℕ → List Branch → Option ℕ
usable_with_id tenant id [] = none
usable_with_id tenant id (b ∷ bs) =
    if b.id == id && is_usable tenant b then some b.id else usable_with_id tenant id bs

-- `order_by(Branch.created_at, Branch.id)`
abbrev pub comes_before : Branch → Branch → Bool
comes_before b c = ltb b.created_at c.created_at || (b.created_at == c.created_at && ltb b.id c.id)

abbrev pub earlier : Branch → Option Branch → Option Branch
earlier b none = some b
earlier b (some c) = if comes_before c b then some c else some b

unfoldable pub first_usable : ℕ → List Branch → Option Branch
first_usable tenant [] = none
first_usable tenant (b ∷ bs) =
    let rest = first_usable tenant bs in if is_usable tenant b then earlier b rest else rest

abbrev pub branch_id : Option Branch → Option ℕ
branch_id none = none
branch_id (some b) = some b.id

abbrev pub configured_branch : ℕ → Configured → List Branch → Option ℕ
configured_branch tenant unset bs = none
configured_branch tenant malformed bs = none
configured_branch tenant (chosen id) bs = usable_with_id tenant id bs

unfoldable pub resolve_default_warehouse_id : List Branch → Configured → ℕ → Option ℕ
resolve_default_warehouse_id bs configured tenant =
    or_else (configured_branch tenant configured bs) (branch_id (first_usable tenant bs))

-- The movements of one reference and product.
abbrev pub is_original : ℕ → String → ℕ → ℕ → StockMovement → Bool
is_original tenant reference_type reference_id product m =
    m.tenant_id == tenant
    && str_eq m.reference_type reference_type
    && m.reference_id == reference_id
    && m.product_id == product

abbrev pub later : StockMovement → Option StockMovement → Option StockMovement
later m none = some m
later m (some n) = if ltb m.created_at n.created_at then some n else some m

-- `order_by(created_at.desc()).first()`: of movements made at the same time, the first of the table.
unfoldable pub latest : (StockMovement → Bool) → List StockMovement → Option StockMovement
latest test [] = none
latest test (m ∷ ms) = let rest = latest test ms in if test m then later m rest else rest

abbrev pub warehouse_of : Option StockMovement → Option ℕ
warehouse_of none = none
warehouse_of (some m) = m.warehouse_id

unfoldable pub resolve_reversal_warehouse_id :
    List StockMovement → List Branch → Configured → ℕ → String → ℕ → ℕ → Option ℕ
resolve_reversal_warehouse_id ms bs configured tenant reference_type reference_id product =
    or_else (warehouse_of (latest (is_original tenant reference_type reference_id product) ms))
      (resolve_default_warehouse_id bs configured tenant)

abbrev pub is_some_eq : Option ℕ → ℕ → Bool
is_some_eq none w = false
is_some_eq (some v) w = v == w

abbrev pub is_at : ℕ → ℕ → ℕ → StockMovement → Bool
is_at tenant warehouse product m =
    m.tenant_id == tenant && is_some_eq m.warehouse_id warehouse && m.product_id == product

unfoldable pub quantity_sum : (StockMovement → Bool) → List StockMovement → ℤ
quantity_sum test [] = pos 0
quantity_sum test (m ∷ ms) = (if test m then m.quantity else pos 0) +ℤ quantity_sum test ms

unfoldable pub get_warehouse_stock : List StockMovement → ℕ → Option ℕ → ℕ → Option ℤ
get_warehouse_stock ms tenant none product = none
get_warehouse_stock ms tenant (some w) product = some (quantity_sum (is_at tenant w product) ms)

unfoldable pub get_stock_balance_after : List StockMovement → ℕ → Option ℕ → ℕ → ℤ → ℤ → ℤ
unfolding get_warehouse_stock
get_stock_balance_after ms tenant warehouse product quantity_change global_balance_after =
    elim (get_warehouse_stock ms tenant warehouse product) [
      | none ↦ global_balance_after
      | some location_before ↦ location_before +ℤ quantity_change
    ]
