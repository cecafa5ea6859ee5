-- ===== src/Inventory/StockLaws.antt =====
-- The balance that a movement leaves in its warehouse.
use bookkeeping.Base.{
  Bool, List, [], ap, arith, if◌then◌else◌, some, sym, true, ℕ, ◌&&◌, ◌++◌, ◌==◌, ◌∙◌, ◌∷◌, ◌≡◌,
}
use bookkeeping.Int.{add-zero, add_assoc, pos, zero-add, ℤ, ◌+ℤ◌}
use bookkeeping.Inventory.Warehouses.{
  StockMovement, get_stock_balance_after, get_warehouse_stock, is_at, quantity_sum,
}

quantity_sum-append :
    (test : StockMovement → Bool) (ms : List StockMovement) (m : StockMovement)
    → test m ≡ true
    → quantity_sum test (ms ++ m ∷ []) ≡ quantity_sum test ms +ℤ m.quantity
unfolding quantity_sum
quantity_sum-append test [] m h = rw h (add-zero m.quantity ∙ sym (zero-add m.quantity))
quantity_sum-append test (n ∷ ms) m h =
    rw (quantity_sum-append test ms m h)
      (sym (add_assoc (if test n then n.quantity else pos 0) (quantity_sum test ms) m.quantity))

at_itself :
    (tenant warehouse product : ℕ)
    → ((tenant == tenant) && (warehouse == warehouse) && (product == product)) ≡ true
at_itself tenant warehouse product = ground arith

-- The balance after a movement is the stock of its warehouse with the movement taken in.
pub get_stock_balance_after-sum :
    (ms : List StockMovement) (m : StockMovement) (warehouse : ℕ) (global_balance_after : ℤ)
    → m.warehouse_id ≡ some warehouse
    → some (
        get_stock_balance_after ms m.tenant_id
          (some warehouse)
          m.product_id
          m.quantity
          global_balance_after)
      ≡ get_warehouse_stock (ms ++ m ∷ []) m.tenant_id (some warehouse) m.product_id
unfolding get_stock_balance_after get_warehouse_stock
get_stock_balance_after-sum ms m warehouse global_balance_after h = ap some (
    sym (
      quantity_sum-append (is_at m.tenant_id warehouse m.product_id) ms m
        (rw h (at_itself m.tenant_id warehouse m.product_id))))
