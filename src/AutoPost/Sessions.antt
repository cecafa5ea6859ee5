-- ===== src/AutoPost/Sessions.antt =====
-- What the lines of a document leave in the session, and what its flush writes.
use bookkeeping.AutoPost.Stock.{
  DocumentLine, Reference, StockSession, current_stock, default_warehouse, effective_available,
  find_product, flush_product, flush_products, insufficient_stock, is_product, issue_goods,
  issue_lines, move_stock, moved_goods, receive_goods, receive_lines, stock_set,
}
use bookkeeping.AutoPost.StockLaws.{
  is_movement_of, line_share, moved_same, named_quantity, quantity_sum-append, recorded_quantity,
  share, zero_share,
}
use bookkeeping.Base.{
  Bool, Bool-cases, List, Option, [], ap, arith, bind-ok, false, if◌then◌else◌, inl, inr, none, not,
  ok, ok-injective, raise_if, refl, some, some-injective, sym, true, ℕ, ◌&&◌, ◌++◌, ◌==◌, ◌∙◌, ◌∷◌,
  ◌≡◌,
}
use bookkeeping.Int.{
  add-zero, add_assoc, eq_of_parts, eqb_ℤ, int_laws, ltb_ℤ, neg, neg-zero, pos, zero-add, ℤ, ◌+ℤ◌,
}
use bookkeeping.Inventory.CarryForward.{Product}
use bookkeeping.Inventory.Warehouses.{StockMovement, get_warehouse_stock, is_some_eq, quantity_sum}

pub quantity_sum_last :
    (test : StockMovement → Bool) (ms : List StockMovement) (m : StockMovement) (b : Bool)
    → test m ≡ b
    → quantity_sum test (ms ++ m ∷ []) ≡ quantity_sum test ms +ℤ (if b then m.quantity else pos 0)
unfolding quantity_sum
quantity_sum_last test ms m b h =
    quantity_sum-append test ms (m ∷ [])
    ∙ rw h (ap (λ y. quantity_sum test ms +ℤ y) (add-zero (if b then m.quantity else pos 0)))

module _ (r : Reference) (x : ℤ) where
  pub receive_goods-inventory :
      (o : Option Product) (s : StockSession) → (receive_goods r x o s).inventory ≡ s.inventory
  unfolding receive_goods move_stock
  receive_goods-inventory none s = refl
  receive_goods-inventory (some q) s = refl

  pub receive_goods-pending :
      (id : ℕ) (o : Option Product) (s : StockSession)
      → recorded_quantity r.tenant id (receive_goods r x o s).pending
        ≡ recorded_quantity r.tenant id s.pending +ℤ share o id x
  unfolding receive_goods move_stock
  receive_goods-pending id none s = sym (add-zero (recorded_quantity r.tenant id s.pending))
  receive_goods-pending id (some q) s =
      quantity_sum_last (is_movement_of r.tenant id) s.pending _ (q.id == id) (ground arith)

  pub receive_goods-stock :
      (p : Product) (o : Option Product) (s : StockSession)
      → ((q : Product) → o ≡ some q → q.id ≡ p.id → q ≡ p)
      → current_stock (receive_goods r x o s) p ≡ current_stock s p +ℤ share o p.id x
  unfolding receive_goods move_stock current_stock stock_set
  receive_goods-stock p none s agree = sym (add-zero _)
  receive_goods-stock p (some q) s agree = elim (Bool-cases (q.id == p.id)) [
    | inl hit ↦
        let e : q ≡ p = agree q refl (ground arith) in rw hit (ap (λ y. current_stock s y +ℤ x) e)
    | inr miss ↦ rw miss (sym (add-zero _))
  ]

-- What an invoice's line does where it is issued.
pub issue_goods-receives :
    (allow : Bool) (r : Reference) (quantity : ℤ) (o : Option Product) (s : StockSession)
    {after : StockSession}
    → issue_goods allow r quantity o s ≡ ok after
    → receive_goods r (neg quantity) o s ≡ after
unfolding issue_goods receive_goods
issue_goods-receives allow r quantity none s h = ok-injective h
issue_goods-receives allow r quantity (some p) s h =
    let location =
      get_warehouse_stock s.inventory.movements r.tenant (default_warehouse r s.inventory) p.id in
    let (u, e, last) =
      bind-ok
        (raise_if (not allow && ltb_ℤ (effective_available location (current_stock s p)) quantity)
          (insufficient_stock p.name))
        (λ v. ok (move_stock r (default_warehouse r s.inventory) p (neg quantity) s)) h in
    ok-injective last

-- What a product's lines make of its recorded quantity and of its stock.
pub record Carried (tenant : ℕ) (p : Product) (c : ℤ) (s after : StockSession) : Type 0 where
  pub tables : after.inventory ≡ s.inventory
  pub recorded :
      recorded_quantity tenant p.id after.pending ≡ recorded_quantity tenant p.id s.pending +ℤ c
  pub stock : current_stock after p ≡ current_stock s p +ℤ c

Carried-none : (tenant : ℕ) (p : Product) (s : StockSession) → Carried tenant p (pos 0) s s
Carried-none tenant p s = record {
  tables = refl;
  recorded = sym (add-zero (recorded_quantity tenant p.id s.pending));
  stock = sym (add-zero (current_stock s p));
}

Carried-then :
    {tenant : ℕ} {p : Product} {c d : ℤ} {s mid after : StockSession}
    → Carried tenant p c s mid
    → Carried tenant p d mid after
    → Carried tenant p (c +ℤ d) s after
Carried-then {tenant} {p} {c} {d} {s} a b = record {
  tables = b.tables ∙ a.tables;
  recorded =
      b.recorded
      ∙ ap (λ y. y +ℤ d) a.recorded
      ∙ add_assoc (recorded_quantity tenant p.id s.pending) c d;
  stock = b.stock ∙ ap (λ y. y +ℤ d) a.stock ∙ add_assoc (current_stock s p) c d;
}

-- What the lines that name a product move of it.
abbrev pub moved_quantity : Product → List DocumentLine → ℤ
moved_quantity p ls = if p.is_goods then named_quantity ls p.id else pos 0

first_and_rest :
    (is_goods is_named : Bool) (q rest : ℤ)
    → line_share is_goods is_named q +ℤ (if is_goods then rest else pos 0)
      ≡ (if is_goods then (if is_named then q else pos 0) +ℤ rest else pos 0)
first_and_rest false is_named q rest = zero-add (pos 0)
first_and_rest true is_named q rest = refl

neg_first_and_rest :
    (is_goods is_named : Bool) (q rest : ℤ)
    → line_share is_goods is_named (neg q) +ℤ neg (if is_goods then rest else pos 0)
      ≡ neg (if is_goods then (if is_named then q else pos 0) +ℤ rest else pos 0)
neg_first_and_rest false is_named q rest = omega int_laws
neg_first_and_rest true true q rest = omega int_laws
neg_first_and_rest true false q rest = omega int_laws

no_quantity : (q : ℤ) → eqb_ℤ q (pos 0) ≡ true → q ≡ pos 0
no_quantity q h = eq_of_parts q (pos 0) (ground arith)

module _ (r : Reference) {p : Product} where
  line-Carried :
      (x : ℤ) (l : DocumentLine) (s : StockSession)
      → find_product r.tenant p.id s.inventory.products ≡ some p
      → (eqb_ℤ l.quantity (pos 0) ≡ true → x ≡ pos 0)
      → Carried r.tenant p
          (line_share p.is_goods (is_some_eq l.product_id p.id) x)
          s
          (receive_goods r x (moved_goods r.tenant l s.inventory.products) s)
  line-Carried x l s found none_of =
      let o = moved_goods r.tenant l s.inventory.products in
      rw (← zero_share r.tenant p.id s.inventory.products found x l none_of) (record {
        tables = receive_goods-inventory r x o s;
        recorded = receive_goods-pending r x p.id o s;
        stock =
            receive_goods-stock r x p o s
              (λ q h. moved_same r.tenant p.id s.inventory.products found l h);
      })

  pub receive_lines-Carried :
      (ls : List DocumentLine) (s : StockSession)
      → find_product r.tenant p.id s.inventory.products ≡ some p
      → Carried r.tenant p (moved_quantity p ls) s (receive_lines r ls s)
  unfolding receive_lines
  receive_lines-Carried [] s found = rw (nothing p.is_goods) (Carried-none r.tenant p s)
    where
      nothing : (b : Bool) → (if b then pos 0 else pos 0) ≡ pos 0
      nothing true = refl
      nothing false = refl
  receive_lines-Carried (l ∷ ls) s found =
      let first = line-Carried l.quantity l s found (no_quantity l.quantity) in
      let rest = receive_lines-Carried ls _ (rw first.tables found) in
      rw
        (← first_and_rest p.is_goods (is_some_eq l.product_id p.id) l.quantity
          (named_quantity ls p.id))
        (Carried-then first rest)

  pub issue_lines-Carried :
      (allow : Bool) (ls : List DocumentLine) (s : StockSession) {after : StockSession}
      → find_product r.tenant p.id s.inventory.products ≡ some p
      → issue_lines allow r ls s ≡ ok after
      → Carried r.tenant p (neg (moved_quantity p ls)) s after
  unfolding issue_lines
  issue_lines-Carried allow [] s {after} found h =
      rw (nothing p.is_goods, ← ok-injective h) (Carried-none r.tenant p s)
    where
      nothing : (b : Bool) → neg (if b then pos 0 else pos 0) ≡ pos 0
      nothing true = neg-zero
      nothing false = neg-zero
  issue_lines-Carried allow (l ∷ ls) s found h =
      let (mid, e, last) =
        bind-ok (issue_goods allow r l.quantity (moved_goods r.tenant l s.inventory.products) s) _
          h in
      let first = rw (issue_goods-receives allow r l.quantity _ s e) at (
        line-Carried (neg l.quantity) l s found
          (λ z. ap neg (no_quantity l.quantity z) ∙ neg-zero)) in
      let rest = issue_lines-Carried allow ls mid (rw first.tables found) last in
      rw
        (← neg_first_and_rest p.is_goods (is_some_eq l.product_id p.id) l.quantity
          (named_quantity ls p.id))
        (Carried-then first rest)

flush_product_id :
    (col : ℤ → ℤ) (tenant : ℕ) (stocks : List (ℕ × ℤ)) (t id : ℕ) (q : Product)
    → is_product t id (flush_product col tenant stocks q) ≡ is_product t id q
unfolding flush_product
flush_product_id col tenant stocks t id q = elim (Bool-cases (q.tenant_id == tenant)) [
  | inl hit ↦ rw hit refl
  | inr miss ↦ rw miss refl
]

pub find_product-flush :
    (col : ℤ → ℤ) (tenant : ℕ) (stocks : List (ℕ × ℤ)) (id : ℕ) (ps : List Product) {p : Product}
    → find_product tenant id ps ≡ some p
    → find_product tenant id (flush_products col tenant stocks ps)
      ≡ some (flush_product col tenant stocks p)
unfolding find_product flush_products
find_product-flush col tenant stocks id [] h = cc
find_product-flush col tenant stocks id (q ∷ ps) {p} h =
    elim (Bool-cases (is_product tenant id q)) [
      | inl hit ↦
          let e : q ≡ p = some-injective (rw hit at h) in
          rw (flush_product_id col tenant stocks tenant id q, hit, e) refl
      | inr miss ↦
          rw (flush_product_id col tenant stocks tenant id q, miss)
            (find_product-flush col tenant stocks id ps (rw miss at h))
    ]
