-- ===== src/Tests/InventoryTests.antt =====
-- Branches, a movement out of one of them.
use bookkeeping.Base.{Bool, List, [], false, none, refl, some, true, ℕ, ◌*◌, ◌+◌, ◌∷◌, ◌≡◌, ◌≤◌}
use bookkeeping.Int.{negsuc, pos, ℤ}
use bookkeeping.Integration.Once.{count}
use bookkeeping.Inventory.CarryForward.{
  Stock, carried_products, carry_forward_inventory, carry_forward_of, exact_value, is_carried,
  value_of, value_sum,
}
use bookkeeping.Inventory.CarryForwardLaws.{carry_forward_inventory_accurate, exact_sum}
use bookkeeping.Inventory.StockLaws.{get_stock_balance_after-sum}
use bookkeeping.Inventory.WarehouseLaws.{
  DefaultWarehouse, resolve_default_warehouse_id-DefaultWarehouse,
}
use bookkeeping.Inventory.Warehouses.{
  Branch, StockMovement, chosen, first_usable, get_stock_balance_after, get_warehouse_stock,
  resolve_default_warehouse_id, usable_with_id,
}
use bookkeeping.Ledger.RollForward.{ClosingYear}
use bookkeeping.Money.{half_even}

abbrev branch : ℕ → Bool → ℕ → Branch
branch id active created = record {
  id = id;
  tenant_id = 1;
  is_active = active;
  created_at = created;
  deleted = false;
}

abbrev branches : List Branch
branches = branch 5 true 30 ∷ branch 6 false 10 ∷ branch 7 true 20 ∷ []

chosen_branch : resolve_default_warehouse_id branches (chosen 5) 1 ≡ some 5
unfolding resolve_default_warehouse_id usable_with_id first_usable
chosen_branch = refl

oldest_branch : resolve_default_warehouse_id branches (chosen 6) 1 ≡ some 7
unfolding resolve_default_warehouse_id usable_with_id first_usable
oldest_branch = refl

resolve_default_warehouse_id-DefaultWarehouse_example :
    DefaultWarehouse branches 1 (chosen 6) (resolve_default_warehouse_id branches (chosen 6) 1)
resolve_default_warehouse_id-DefaultWarehouse_example =
    resolve_default_warehouse_id-DefaultWarehouse branches (chosen 6) 1

abbrev movement : ℤ → StockMovement
movement quantity = record {
  tenant_id = 1;
  product_id = 8;
  warehouse_id = some 7;
  quantity = quantity;
  balance_quantity = pos 0;
  reference_type = "INVOICE";
  reference_id = 9;
  created_at = 40;
}

get_stock_balance_after-sum_example :
    some (
      get_stock_balance_after
        (movement (pos 50_000) ∷ [])
        1
        (some 7)
        8
        (negsuc 19_999)
        (pos 70_000))
    ≡ get_warehouse_stock (movement (pos 50_000) ∷ movement (negsuc 19_999) ∷ []) 1 (some 7) 8
get_stock_balance_after-sum_example =
    get_stock_balance_after-sum (movement (pos 50_000) ∷ []) (movement (negsuc 19_999)) 7
      (pos 70_000) refl

abbrev closing : ClosingYear
closing = record { id = 3; start_date = 19_700; end_date = 20_100 }

-- 3.33 units at 1.2345, and a product that is out of stock.
abbrev shelf : Stock
shelf = record {
  products =
      record {
        id = 1;
        tenant_id = 1;
        name = "Nut";
        sku = none;
        is_goods = true;
        purchase_price = 12_345;
        opening_stock = pos 0;
        current_stock = pos 333;
        is_active = true;
      }
      ∷ record {
        id = 2;
        tenant_id = 1;
        name = "Bolt";
        sku = none;
        is_goods = true;
        purchase_price = 20_000;
        opening_stock = pos 500;
        current_stock = pos 0;
        is_active = true;
      }
      ∷ [];
  carry_forwards = [];
}

shelf_carried : (carry_forward_inventory 1 closing shelf).0 ≡ (1, 41_109)
unfolding carry_forward_inventory carry_forward_of carried_products is_carried value_of exact_value
    half_even value_sum
shelf_carried = refl

carry_forward_inventory_accurate_example :
    let (count, total_value) = (carry_forward_inventory 1 closing shelf).0 in
    let exact = exact_sum (carried_products 1 shelf.products) in
    (total_value * 100 ≤ exact + 50 * count) × (exact ≤ total_value * 100 + 50 * count)
carry_forward_inventory_accurate_example = carry_forward_inventory_accurate 1 closing shelf
