-- ===== src/AutoPost/Stock.antt =====
-- The stock that a posted document moves (backend/src/domains/accounting/auto_post.py).
use bookkeeping.Base.{
  Bool, List, Option, Result, String, [], if◌then◌else◌, none, not, ok, raise_if, some, ℕ, ◌&&◌,
  ◌*◌, ◌++◌, ◌+◌, ◌==◌, ◌>>=◌, ◌>>◌, ◌∷◌,
}
use bookkeeping.Int.{eqb_ℤ, ltb_ℤ, neg, negsuc, pos, ℤ, ◌+ℤ◌}
use bookkeeping.Inventory.CarryForward.{Product}
use bookkeeping.Inventory.Warehouses.{
  Branch, Configured, StockMovement, get_stock_balance_after, get_warehouse_stock,
  resolve_default_warehouse_id,
}

-- A line of a document. Its quantity is in ten-thousandths. What else it holds is not read here.
pub record DocumentLine : Type 0 where
  pub product_id : Option ℕ
  pub quantity : ℤ

-- The tables that the moves read and write, as the database holds them, and the tenant's configured
-- warehouse. The stock of a product is in hundredths, and `stock_column` is what that column keeps of
-- a stock of ten-thousandths. The quantities of the movements are in ten-thousandths.
pub record Inventory : Type 0 where
  pub products : List Product
  pub movements : List StockMovement
  pub branches : List Branch
  pub configured_warehouse : Configured
  pub stock_column : ℤ → ℤ

-- The session of one document, which has `autoflush=False`: queries read the tables as they were last
-- flushed, and until the next flush an added movement is pending and a stock that was set is held by
-- its product in memory. The stocks are in ten-thousandths, the last one set first.
pub record StockSession : Type 0 where
  pub inventory : Inventory
  pub pending : List StockMovement
  pub stocks : List (ℕ × ℤ)

pub data StockError : Type 0 where
  insufficient_stock : String → StockError

-- `Product.id == line.product_id, Product.tenant_id == tenant_id`
abbrev pub is_product : ℕ → ℕ → Product → Bool
is_product tenant id p = p.id == id && p.tenant_id == tenant

unfoldable pub find_product : ℕ → ℕ → List Product → Option Product
find_product tenant id [] = none
find_product tenant id (p ∷ ps) =
    if is_product tenant id p then some p else find_product tenant id ps

-- A number of hundredths in ten-thousandths.
abbrev pub in_ten_thousandths : ℤ → ℤ
in_ten_thousandths (pos n) = pos (n * 100)
in_ten_thousandths (negsuc n) = negsuc (n * 100 + 99)

-- What the product of an identifier was last set to.
unfoldable pub stock_set : List (ℕ × ℤ) → ℕ → Option ℤ
stock_set [] id = none
stock_set ((i, x) ∷ rest) id = if i == id then some x else stock_set rest id

abbrev pub set_or : Option ℤ → ℤ → ℤ
set_or none x = x
set_or (some y) x = y

-- `product.current_stock` of the product in memory.
unfoldable pub current_stock : StockSession → Product → ℤ
unfolding stock_set
current_stock s p = set_or (stock_set s.stocks p.id) (in_ten_thousandths p.current_stock)

-- What a document writes to every movement of stock.
pub record Reference : Type 0 where
  pub tenant : ℕ
  pub reference_type : String
  pub reference_id : ℕ
  pub now : ℕ

-- The new stock of the product in memory, and the movement that is added. Its balance is that of the
-- warehouse, which is queried, so that no pending movement counts.
unfoldable pub move_stock : Reference → Option ℕ → Product → ℤ → StockSession → StockSession
unfolding current_stock get_stock_balance_after
move_stock r warehouse p quantity s =
    let stock = current_stock s p +ℤ quantity in
    record s {
      stocks = (p.id, stock) ∷ s.stocks;
      pending =
          s.pending
          ++ record {
            tenant_id = r.tenant;
            product_id = p.id;
            warehouse_id = warehouse;
            quantity = quantity;
            balance_quantity =
                get_stock_balance_after s.inventory.movements r.tenant warehouse p.id quantity
                  stock;
            reference_type = r.reference_type;
            reference_id = r.reference_id;
            created_at = r.now;
          }
            ∷ [];
    }

-- The goods that a line names: `line.product_id and line.quantity`, the query, and the type.
abbrev pub goods : Option Product → Option Product
goods none = none
goods (some p) = if p.is_goods then some p else none

abbrev pub product_named : ℕ → Option ℕ → List Product → Option Product
product_named tenant none ps = none
product_named tenant (some id) ps = goods (find_product tenant id ps)

unfoldable pub moved_goods : ℕ → DocumentLine → List Product → Option Product
unfolding find_product
moved_goods tenant l ps =
    if eqb_ℤ l.quantity (pos 0) then none else product_named tenant l.product_id ps

abbrev pub default_warehouse : Reference → Inventory → Option ℕ
default_warehouse r inv =
    resolve_default_warehouse_id inv.branches inv.configured_warehouse r.tenant

-- `location_available if location_available is not None else available`
abbrev pub effective_available : Option ℤ → ℤ → ℤ
effective_available none available = available
effective_available (some location) available = location

-- One line of an invoice.
unfoldable pub issue_goods :
    Bool → Reference → ℤ → Option Product → StockSession → Result StockError StockSession
unfolding resolve_default_warehouse_id get_warehouse_stock move_stock current_stock
issue_goods allow_negative_stock r quantity none s = ok s
issue_goods allow_negative_stock r quantity (some p) s = do
  let warehouse = default_warehouse r s.inventory
  let location = get_warehouse_stock s.inventory.movements r.tenant warehouse p.id
  raise_if
      (not allow_negative_stock
        && ltb_ℤ (effective_available location (current_stock s p)) quantity)
      (insufficient_stock p.name)
  ok (move_stock r warehouse p (neg quantity) s)

unfoldable pub issue_lines :
    Bool → Reference → List DocumentLine → StockSession → Result StockError StockSession
unfolding issue_goods moved_goods
issue_lines allow r [] s = ok s
issue_lines allow r (l ∷ ls) s = do
  after ← issue_goods allow r l.quantity (moved_goods r.tenant l s.inventory.products) s
  issue_lines allow r ls after

-- One line of a bill.
unfoldable pub receive_goods : Reference → ℤ → Option Product → StockSession → StockSession
unfolding resolve_default_warehouse_id move_stock
receive_goods r quantity none s = s
receive_goods r quantity (some p) s = move_stock r (default_warehouse r s.inventory) p quantity s

unfoldable pub receive_lines : Reference → List DocumentLine → StockSession → StockSession
unfolding receive_goods moved_goods
receive_lines r [] s = s
receive_lines r (l ∷ ls) s =
    receive_lines r ls (receive_goods r l.quantity (moved_goods r.tenant l s.inventory.products) s)

abbrev pub new_session : Inventory → StockSession
new_session inv = record { inventory = inv; pending = []; stocks = [] }

abbrev pub kept_stock : (ℤ → ℤ) → Option ℤ → ℤ → ℤ
kept_stock stock_column none x = x
kept_stock stock_column (some y) x = stock_column y

-- The row of a product after the flush, which writes the stock that was set.
unfoldable pub flush_product : (ℤ → ℤ) → ℕ → List (ℕ × ℤ) → Product → Product
unfolding stock_set
flush_product stock_column tenant stocks p =
    if p.tenant_id == tenant
    then record p {
      current_stock = kept_stock stock_column (stock_set stocks p.id) p.current_stock;
    }
    else p

unfoldable pub flush_products : (ℤ → ℤ) → ℕ → List (ℕ × ℤ) → List Product → List Product
unfolding flush_product
flush_products stock_column tenant stocks [] = []
flush_products stock_column tenant stocks (p ∷ ps) =
    flush_product stock_column tenant stocks p ∷ flush_products stock_column tenant stocks ps

-- `db.flush()` at the end.
unfoldable pub flush_stock : ℕ → StockSession → Inventory
unfolding flush_products
flush_stock tenant s = record s.inventory {
  products = flush_products s.inventory.stock_column tenant s.stocks s.inventory.products;
  movements = s.inventory.movements ++ s.pending;
}
