-- ===== src/AutoPost/Stocked.antt =====
-- The stock after an invoice and after a bill.
use bookkeeping.Accounts.Resolver.{Texts}
use bookkeeping.AutoPost.Documents.{
  DocumentRow, Store, auto_post_bill, auto_post_invoice, reference_to,
}
use bookkeeping.AutoPost.InStock.{InStock, NoRepeat, issue_lines-InStock}
use bookkeeping.AutoPost.Posted.{auto_post_bill-BillPosted, auto_post_invoice-InvoicePosted}
use bookkeeping.AutoPost.Sessions.{
  Carried, find_product-flush, issue_lines-Carried, moved_quantity, receive_lines-Carried,
}
use bookkeeping.AutoPost.Stock.{
  Inventory, StockSession, current_stock, default_warehouse, find_product, flush_product,
  flush_stock, in_ten_thousandths, kept_stock, new_session, set_or, stock_set,
}
use bookkeeping.AutoPost.StockLaws.{
  found_product, is_movement_of, quantity_sum-append, recorded_quantity,
}
use bookkeeping.Base.{
  Bool, Option, [], ap, arith, false, if◌then◌else◌, none, ok, refl, some, sym, true, ℕ, ◌==◌, ◌∙◌,
  ◌≡◌,
}
use bookkeeping.Int.{neg, zero-add, ℤ, ◌+ℤ◌}
use bookkeeping.Inventory.CarryForward.{Product}
use bookkeeping.Inventory.Warehouses.{quantity_sum}
use bookkeeping.Ledger.Commit.{PostingContext}
use bookkeeping.Ledger.RollForwardLaws.{carried}

-- The recorded quantity of a product has changed by `change`, and its stock is what the column keeps of
-- the old stock, in ten-thousandths, changed by it.
abbrev pub StockMoved : ℕ → Product → ℤ → Inventory → Inventory → Type 0
StockMoved tenant p change before after =
    (recorded_quantity tenant p.id after.movements
      ≡ recorded_quantity tenant p.id before.movements +ℤ change)
    × (find_product tenant p.id after.products
        ≡ some (record p {
          current_stock = before.stock_column (in_ten_thousandths p.current_stock +ℤ change);
        }))

kept_in_column :
    (col : ℤ → ℤ) (o : Option ℤ) (x : ℤ)
    → col (in_ten_thousandths x) ≡ x
    → kept_stock col o x ≡ col (set_or o (in_ten_thousandths x))
kept_in_column col none x h = sym h
kept_in_column col (some y) x h = refl

flush_product_kept :
    (col : ℤ → ℤ) (s : StockSession) (p : Product)
    → col (in_ten_thousandths p.current_stock) ≡ p.current_stock
    → flush_product col p.tenant_id s.stocks p
      ≡ record p { current_stock = col (current_stock s p) }
unfolding flush_product current_stock
flush_product_kept col s p h =
    let own : (p.tenant_id == p.tenant_id) ≡ true = ground arith in
    rw (own, kept_in_column col (stock_set s.stocks p.id) p.current_stock h) refl

nothing_before : (tenant id : ℕ) (c : ℤ) → recorded_quantity tenant id [] +ℤ c ≡ c
unfolding quantity_sum
nothing_before tenant id c = zero-add c

unset_before :
    (inv : Inventory) (p : Product) (c : ℤ)
    → current_stock (new_session inv) p +ℤ c ≡ in_ten_thousandths p.current_stock +ℤ c
unfolding current_stock stock_set
unset_before inv p c = refl

flush_stock-StockMoved :
    (tenant : ℕ) (inv : Inventory) (s : StockSession) {p : Product} {c : ℤ}
    → ((x : ℤ) → inv.stock_column (in_ten_thousandths x) ≡ x)
    → find_product tenant p.id inv.products ≡ some p
    → Carried tenant p c (new_session inv) s
    → StockMoved tenant p c inv (flush_stock tenant s)
unfolding flush_stock
flush_stock-StockMoved tenant inv s {p} {c} exact found carried =
    let own : p.tenant_id ≡ tenant = (found_product tenant p.id inv.products found).1 in
    (
      rw carried.tables (
          quantity_sum-append (is_movement_of tenant p.id) inv.movements s.pending
          ∙ ap (λ y. recorded_quantity tenant p.id inv.movements +ℤ y)
              (carried.recorded ∙ nothing_before tenant p.id c)),
      rw carried.tables (
          find_product-flush inv.stock_column tenant s.stocks p.id inv.products found
          ∙ ap some (
              rw (← own) (flush_product_kept inv.stock_column s p (exact p.current_stock))
              ∙ ap (λ y. record p { current_stock = inv.stock_column y })
                  (carried.stock ∙ unset_before inv p c))),
    )

module _ (texts : Texts) (ctx : PostingContext) (tenant : ℕ) (d : DocumentRow) where
  -- An invoice that is posted records, for every product of the tenant, minus the quantity of the lines
  -- that name it where it is goods and the invoice moves stock, and nothing otherwise; and the stock of
  -- the product is then what its column keeps of the old stock changed by as much. The column keeps
  -- whole hundredths.
  pub auto_post_invoice-StockMoved :
      (allow_negative_stock moves_stock : Bool) (db : Store) {row : DocumentRow} {after : Store}
      {p : Product}
      → ((x : ℤ) → db.inventory.stock_column (in_ten_thousandths x) ≡ x)
      → find_product tenant p.id db.inventory.products ≡ some p
      → auto_post_invoice texts ctx tenant d allow_negative_stock moves_stock db ≡ ok (row, after)
      → StockMoved tenant p
          (neg (moved_quantity p (if moves_stock then d.lines else [])))
          db.inventory
          after.inventory
  auto_post_invoice-StockMoved allow_negative_stock moves_stock db exact found h =
      let q =
        auto_post_invoice-InvoicePosted texts ctx tenant d allow_negative_stock moves_stock db h in
      rw q.flushed (
        flush_stock-StockMoved tenant db.inventory q.session exact found (
          issue_lines-Carried (reference_to tenant "INVOICE" d ctx.now) allow_negative_stock _ _
            found q.stock))

  -- A bill that is posted records, for every product of the tenant, the quantity of the lines that name
  -- it where it is goods, and nothing otherwise; and the stock of the product is then what its column
  -- keeps of the old stock changed by as much. The column keeps whole hundredths.
  pub auto_post_bill-StockMoved :
      (db : Store) {row : DocumentRow} {after : Store} {p : Product}
      → ((x : ℤ) → db.inventory.stock_column (in_ten_thousandths x) ≡ x)
      → find_product tenant p.id db.inventory.products ≡ some p
      → auto_post_bill texts ctx tenant d db ≡ ok (row, after)
      → StockMoved tenant p (moved_quantity p d.lines) db.inventory after.inventory
  auto_post_bill-StockMoved db exact found h =
      let q = auto_post_bill-BillPosted texts ctx tenant d db h in
      rw q.stock (
        flush_stock-StockMoved tenant db.inventory _ exact found
          (receive_lines-Carried (reference_to tenant "BILL" d ctx.now) d.lines _ found))

  -- Where the default warehouse holds no product below zero, an invoice that is posted without leave for
  -- negative stock, and whose lines name no product twice, brings none below zero.
  pub auto_post_invoice-InStock :
      (w : ℕ) (moves_stock : Bool) (db : Store) {row : DocumentRow} {after : Store}
      → NoRepeat (if moves_stock then d.lines else [])
      → default_warehouse (reference_to tenant "INVOICE" d ctx.now) db.inventory ≡ some w
      → InStock tenant w db.inventory.movements
      → auto_post_invoice texts ctx tenant d false moves_stock db ≡ ok (row, after)
      → InStock tenant w after.inventory.movements
  auto_post_invoice-InStock w moves_stock db alone at_w held h =
      let q = auto_post_invoice-InvoicePosted texts ctx tenant d false moves_stock db h in
      rw q.flushed (
        issue_lines-InStock (reference_to tenant "INVOICE" d ctx.now) w _ db.inventory alone at_w
          held q.stock)
