-- ===== src/Inventory/CarryForwardLaws.antt =====
-- The value that is carried into the next year.
use bookkeeping.Base.{List, [], arith, length, map, ℕ, ◌*◌, ◌+◌, ◌∷◌, ◌≤◌}
use bookkeeping.Integration.Once.{count}
use bookkeeping.Inventory.CarryForward.{
  Product, Stock, carried_products, carry_forward_inventory, carry_forward_of, exact_value,
  value_of, value_sum,
}
use bookkeeping.Ledger.RollForward.{ClosingYear}
use bookkeeping.Money.{half_even_nearest}

pub exact_sum : List Product → ℕ
exact_sum [] = 0
exact_sum (p ∷ ps) = exact_value p + exact_sum ps

value_of_nearest :
    (p : Product)
    → (value_of p * 100 ≤ exact_value p + 50) × (exact_value p ≤ value_of p * 100 + 50)
unfolding value_of
value_of_nearest p = let near = half_even_nearest (exact_value p) in (omega arith, omega arith)

value_sum_nearest :
    (tenant : ℕ) (closing_fy : ClosingYear) (ps : List Product)
    → let rows = map (carry_forward_of tenant closing_fy) ps in
      (value_sum rows * 100 ≤ exact_sum ps + 50 * length rows)
      × (exact_sum ps ≤ value_sum rows * 100 + 50 * length rows)
unfolding value_sum carry_forward_of exact_sum
value_sum_nearest tenant closing_fy [] = (omega arith, omega arith)
value_sum_nearest tenant closing_fy (p ∷ ps) =
    let here = value_of_nearest p in
    let rest = value_sum_nearest tenant closing_fy ps in (omega arith, omega arith)

-- The total value that is returned differs from the exact value of the carried stock at purchase
-- prices by at most half a ten-thousandth of a rupee for each product carried.
pub carry_forward_inventory_accurate :
    (tenant : ℕ) (closing_fy : ClosingYear) (s : Stock)
    → let (count, total_value) = (carry_forward_inventory tenant closing_fy s).0 in
      let exact = exact_sum (carried_products tenant s.products) in
      (total_value * 100 ≤ exact + 50 * count) × (exact ≤ total_value * 100 + 50 * count)
unfolding carry_forward_inventory
carry_forward_inventory_accurate tenant closing_fy s =
    value_sum_nearest tenant closing_fy (carried_products tenant s.products)
