-- ===== src/AutoPost/InStock.antt =====
-- No warehouse is oversold by lines of different products.
use bookkeeping.AutoPost.Sessions.{issue_goods-receives, quantity_sum_last, receive_goods-inventory}
use bookkeeping.AutoPost.Stock.{
  DocumentLine, Inventory, Reference, StockSession, default_warehouse, find_product, flush_stock,
  insufficient_stock, issue_goods, issue_lines, move_stock, moved_goods, new_session, product_named,
}
use bookkeeping.AutoPost.StockLaws.{found_product, goods-some, quantity_sum-append}
use bookkeeping.Base.{
  Bool, Bool-cases, List, Option, [], any_of, ap, arith, bind-ok, false, if◌then◌else◌, inl, inr,
  none, ok, ok-injective, raise_if, refl, some, sym, true, ℕ, ◌+◌, ◌==◌, ◌||◌, ◌∷◌, ◌≡◌, ◌≤◌,
}
use bookkeeping.Int.{
  +ℤ_parts, add-zero, eqb_ℤ, ltb_ℤ, neg, neg_part, neg_parts, pos, pos_part, zero-add, ℤ, ◌+ℤ◌,
  ◌≤ℤ◌,
}
use bookkeeping.Inventory.CarryForward.{Product}
use bookkeeping.Inventory.Warehouses.{
  StockMovement, get_warehouse_stock, is_at, is_some_eq, quantity_sum,
}

-- What the warehouse holds of every product of the tenant.
abbrev pub InStock : ℕ → ℕ → List StockMovement → Type 0
InStock tenant w ms = (id : ℕ) → pos 0 ≤ℤ quantity_sum (is_at tenant w id) ms

abbrev pub names : ℕ → List DocumentLine → Bool
names id ls = any_of (λ l. is_some_eq l.product_id id) ls

abbrev Unnamed : Option ℕ → List DocumentLine → Type 0
Unnamed none ls = Unit
Unnamed (some id) ls = names id ls ≡ false

-- No two lines name the same product.
abbrev pub NoRepeat : List DocumentLine → Type 0
NoRepeat [] = Unit
NoRepeat (l ∷ ls) = Unnamed l.product_id ls × NoRepeat ls

enough_left : (x q : ℤ) → ltb_ℤ x q ≡ false → pos 0 ≤ℤ (x +ℤ neg q)
enough_left x q h =
    let least : neg_part x + pos_part q ≤ pos_part x + neg_part q = ground arith in
    omega (arith, +ℤ_parts x (neg q), neg_parts q, least)

raise_if_passed : {E : Type 0} (x : E) (b : Bool) {u : Unit {0}} → raise_if b x ≡ ok u → b ≡ false
raise_if_passed x true h = cc
raise_if_passed x false h = refl

module _ (r : Reference) (w : ℕ) where
  -- What is pending of a product at the warehouse.
  abbrev pending_of : ℕ → StockSession → ℤ
  pending_of id s = quantity_sum (is_at r.tenant w id) s.pending

  abbrev held_of : ℕ → StockSession → ℤ
  held_of id s = quantity_sum (is_at r.tenant w id) s.inventory.movements

  -- Nothing is oversold, and of the products that are still to come nothing is pending.
  abbrev Ready : List DocumentLine → StockSession → Type 0
  Ready ls s =
      (id : ℕ)
      → (pos 0 ≤ℤ (held_of id s +ℤ pending_of id s))
        × (names id ls ≡ true → pending_of id s ≡ pos 0)

  moved_pending :
      (p : Product) (x : ℤ) (s : StockSession) (id : ℕ)
      → pending_of id (move_stock r (some w) p x s)
        ≡ pending_of id s +ℤ (if p.id == id then x else pos 0)
  unfolding move_stock
  moved_pending p x s id =
      quantity_sum_last (is_at r.tenant w id) s.pending _ (p.id == id) (ground arith)

  moved_id :
      (l : DocumentLine) (ps : List Product) {p : Product}
      → moved_goods r.tenant l ps ≡ some p
      → l.product_id ≡ some p.id
  unfolding moved_goods
  moved_id l ps h = elim (Bool-cases (eqb_ℤ l.quantity (pos 0))) [
    | inl hit ↦ cc (rw hit at h)
    | inr miss ↦ named_id l.product_id (rw miss at h)
  ]
    where
      named_id : (o : Option ℕ) {q : Product} → product_named r.tenant o ps ≡ some q → o ≡ some q.id
      named_id none e = cc
      named_id (some i) {q} e =
          let found : find_product r.tenant i ps ≡ some q = goods-some _ e in
          ap some (sym (found_product r.tenant i ps found).0)

  move_stock-Ready :
      (p : Product) (l : DocumentLine) (ls : List DocumentLine) (s : StockSession)
      → l.product_id ≡ some p.id
      → Unnamed l.product_id ls
      → Ready (l ∷ ls) s
      → ltb_ℤ (held_of p.id s) l.quantity ≡ false
      → Ready ls (move_stock r (some w) p (neg l.quantity) s)
  unfolding move_stock
  move_stock-Ready p l ls s wants alone ready enough id = elim (Bool-cases (p.id == id)) [
    | inl hit ↦
        let i : p.id ≡ id = ground arith in
        let heard : names id (l ∷ ls) ≡ true = rw wants (ground arith) in
        let unheard : names id ls ≡ false = rw (← i) (rw wants at alone) in
        let untouched = (ready id).1 heard in
        (
          rw (moved_pending p (neg l.quantity) s id, hit, untouched, zero-add (neg l.quantity))
              (enough_left (held_of id s) l.quantity (rw i at enough)),
          λ h. absurd (ground arith),
        )
    | inr miss ↦
        let moved_none = moved_pending p (neg l.quantity) s id in
        (
          rw (moved_none, miss, add-zero (pending_of id s)) (ready id).0,
          λ h.
              rw (moved_none, miss, add-zero (pending_of id s))
                ((ready id).1 (later_named l.product_id h)),
        )
  ]
    where
      later_named : (o : Option ℕ) → names id ls ≡ true → (is_some_eq o id || names id ls) ≡ true
      later_named o h = ground arith

  issue_goods-Ready :
      (o : Option Product) (l : DocumentLine) (ls : List DocumentLine) (s : StockSession)
      {after : StockSession}
      → ((p : Product) → o ≡ some p → l.product_id ≡ some p.id)
      → default_warehouse r s.inventory ≡ some w
      → Unnamed l.product_id ls
      → Ready (l ∷ ls) s
      → issue_goods false r l.quantity o s ≡ ok after
      → Ready ls after
  unfolding issue_goods get_warehouse_stock
  issue_goods-Ready none l ls s wants at_w alone ready h =
      rw (← ok-injective h) (λ id. ((ready id).0, λ k. (ready id).1 (ground arith)))
  issue_goods-Ready (some p) l ls s wants at_w alone ready h =
      let (u, e, last) =
        bind-ok (raise_if (ltb_ℤ (held_of p.id s) l.quantity) (insufficient_stock p.name)) _
          (rw at_w at h) in
      rw (← ok-injective last)
        (move_stock-Ready p l ls s (wants p refl) alone ready (raise_if_passed _ _ e))

  issue_goods-same :
      (l : DocumentLine) (o : Option Product) (s : StockSession) {after : StockSession}
      → issue_goods false r l.quantity o s ≡ ok after
      → after.inventory ≡ s.inventory
  issue_goods-same l o s h =
      rw (← issue_goods-receives false r l.quantity o s h)
        (receive_goods-inventory r (neg l.quantity) o s)

  issue_lines-Ready :
      (ls : List DocumentLine) (s : StockSession) {after : StockSession}
      → NoRepeat ls
      → default_warehouse r s.inventory ≡ some w
      → Ready ls s
      → issue_lines false r ls s ≡ ok after
      → Ready [] after
  unfolding issue_lines
  issue_lines-Ready [] s alone at_w ready h = rw (← ok-injective h) ready
  issue_lines-Ready (l ∷ ls) s alone at_w ready h =
      let (mid, e, rest) =
        bind-ok (issue_goods false r l.quantity (moved_goods r.tenant l s.inventory.products) s) _
          h in
      issue_lines-Ready ls mid alone.1 (rw (issue_goods-same l _ s e) at_w)
        (issue_goods-Ready (moved_goods r.tenant l s.inventory.products) l ls s
          (λ p found. moved_id l s.inventory.products found) at_w alone.0 ready e)
        rest

  Ready-new_session :
      (ls : List DocumentLine) (inv : Inventory)
      → InStock r.tenant w inv.movements
      → Ready ls (new_session inv)
  unfolding quantity_sum
  Ready-new_session ls inv held id =
      (rw (add-zero (held_of id (new_session inv))) (held id), λ h. refl)

  -- Where the default warehouse holds no product below zero, lines of different products that are
  -- issued without leave for negative stock bring none below zero.
  pub issue_lines-InStock :
      (ls : List DocumentLine) (inv : Inventory) {after : StockSession}
      → NoRepeat ls
      → default_warehouse r inv ≡ some w
      → InStock r.tenant w inv.movements
      → issue_lines false r ls (new_session inv) ≡ ok after
      → InStock r.tenant w (flush_stock r.tenant after).movements
  unfolding flush_stock
  issue_lines-InStock ls inv {after} alone at_w held h id =
      rw (quantity_sum-append (is_at r.tenant w id) after.inventory.movements after.pending)
        (issue_lines-Ready ls (new_session inv) alone at_w (Ready-new_session ls inv held) h id).0
