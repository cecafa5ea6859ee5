-- ===== src/Inventory/CarryForward.antt =====
-- `carry_forward_inventory` (backend/src/domains/accounting/roll_forward.py) on the rows of
-- `Product` and `InventoryCarryForward`. Stock is in hundredths of a unit, prices and values in
-- ten-thousandths of a rupee; a price is not negative by the constraint of its table.
use bookkeeping.Base.{
  Bool, List, Option, String, [], if◌then◌else◌, length, map, ℕ, ◌&&◌, ◌*◌, ◌++◌, ◌+◌, ◌/◌, ◌==◌,
  ◌∷◌,
}
use bookkeeping.Int.{ltb_ℤ, pos, pos_part, ℤ}
use bookkeeping.Ledger.RollForward.{ClosingYear}
use bookkeeping.Money.{half_even}

pub record Product : Type 0 where
  pub id : ℕ
  pub tenant_id : ℕ
  pub name : String
  pub sku : Option String
  -- `product_type` is "GOODS"
  pub is_goods : Bool
  pub purchase_price : ℕ
  pub opening_stock : ℤ
  pub current_stock : ℤ
  pub is_active : Bool

pub record InventoryCarryForward : Type 0 where
  pub tenant_id : ℕ
  pub financial_year_id : ℕ
  pub product_id : ℕ
  pub product_name : String
  pub product_sku : Option String
  pub closing_quantity : ℤ
  pub closing_value : ℕ
  pub unit_rate : ℕ

pub record Stock : Type 0 where
  pub products : List Product
  pub carry_forwards : List InventoryCarryForward

-- The filters of the query.
unfoldable pub is_carried : ℕ → Product → Bool
is_carried tenant p = p.tenant_id == tenant && p.is_active && ltb_ℤ (pos 0) p.current_stock

-- Hundredths times ten-thousandths, which `quantize` rounds to ten-thousandths.
unfoldable pub exact_value : Product → ℕ
exact_value p = pos_part p.current_stock * p.purchase_price

unfoldable pub value_of : Product → ℕ
unfolding exact_value
value_of p = half_even (exact_value p) / 100

unfoldable pub carry_forward_of : ℕ → ClosingYear → Product → InventoryCarryForward
unfolding value_of
carry_forward_of tenant closing_fy p = record {
  tenant_id = tenant;
  financial_year_id = closing_fy.id;
  product_id = p.id;
  product_name = p.name;
  product_sku = p.sku;
  closing_quantity = p.current_stock;
  closing_value = value_of p;
  unit_rate = p.purchase_price;
}

unfoldable pub carried_products : ℕ → List Product → List Product
unfolding is_carried
carried_products tenant [] = []
carried_products tenant (p ∷ ps) =
    if is_carried tenant p then p ∷ carried_products tenant ps else carried_products tenant ps

-- `product.opening_stock = qty` for the products that are carried.
unfoldable pub reopened : ℕ → Product → Product
unfolding is_carried
reopened tenant p = if is_carried tenant p then record p { opening_stock = p.current_stock } else p

unfoldable pub value_sum : List InventoryCarryForward → ℕ
value_sum [] = 0
value_sum (c ∷ cs) = c.closing_value + value_sum cs

-- The number of products carried and their value, and the stock afterwards.
unfoldable pub carry_forward_inventory : ℕ → ClosingYear → Stock → (ℕ × ℕ) × Stock
unfolding carry_forward_of carried_products reopened value_sum
carry_forward_inventory tenant closing_fy s =
    let rows = map (carry_forward_of tenant closing_fy) (carried_products tenant s.products) in
    (
      (length rows, value_sum rows),
      record {
        products = map (reopened tenant) s.products;
        carry_forwards = s.carry_forwards ++ rows;
      },
    )
