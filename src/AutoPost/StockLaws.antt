-- ===== src/AutoPost/StockLaws.antt =====
-- What the lines of a document record and leave in stock.
use bookkeeping.AutoPost.Stock.{
  DocumentLine, find_product, goods, is_product, moved_goods, product_named,
}
use bookkeeping.Base.{
  Bool, Bool-cases, List, Option, [], arith, false, if◌then◌else◌, inl, inr, none, refl, some,
  some-injective, sym, true, ℕ, ◌&&◌, ◌++◌, ◌==◌, ◌∙◌, ◌∷◌, ◌≡◌,
}
use bookkeeping.Int.{add_assoc, eqb_ℤ, pos, zero-add, ℤ, ◌+ℤ◌}
use bookkeeping.Inventory.CarryForward.{Product}
use bookkeeping.Inventory.Warehouses.{StockMovement, is_some_eq, quantity_sum}

-- The quantities that were recorded for a product.
abbrev pub is_movement_of : ℕ → ℕ → StockMovement → Bool
is_movement_of tenant id m = m.tenant_id == tenant && m.product_id == id

abbrev pub recorded_quantity : ℕ → ℕ → List StockMovement → ℤ
recorded_quantity tenant id ms = quantity_sum (is_movement_of tenant id) ms

-- What the lines that name a product come to.
abbrev pub named_quantity : List DocumentLine → ℕ → ℤ
named_quantity [] id = pos 0
named_quantity (l ∷ ls) id =
    (if is_some_eq l.product_id id then l.quantity else pos 0) +ℤ named_quantity ls id

pub quantity_sum-append :
    (test : StockMovement → Bool) (ms ns : List StockMovement)
    → quantity_sum test (ms ++ ns) ≡ quantity_sum test ms +ℤ quantity_sum test ns
unfolding quantity_sum
quantity_sum-append test [] ns = sym (zero-add (quantity_sum test ns))
quantity_sum-append test (m ∷ ms) ns = rw (quantity_sum-append test ms ns) (
    sym (
      add_assoc (if test m then m.quantity else pos 0) (quantity_sum test ms)
        (quantity_sum test ns)))

pub found_product :
    (tenant id : ℕ) (ps : List Product) {p : Product}
    → find_product tenant id ps ≡ some p
    → (p.id ≡ id) × (p.tenant_id ≡ tenant)
unfolding find_product
found_product tenant id [] h = cc
found_product tenant id (q ∷ ps) {p} h = elim (Bool-cases (is_product tenant id q)) [
  | inl hit ↦
      let e : q ≡ p = some-injective (rw hit at h) in
      let t : q.tenant_id ≡ tenant = ground arith in
      let i : q.id ≡ id = ground arith in rw (← e) (i, t)
  | inr other ↦ found_product tenant id ps (rw other at h)
]

-- What a line does to a product.
abbrev pub share : Option Product → ℕ → ℤ → ℤ
share none id x = pos 0
share (some p) id x = if p.id == id then x else pos 0

pub goods-some : (o : Option Product) {q : Product} → goods o ≡ some q → o ≡ some q
goods-some none h = cc
goods-some (some y) h = ground arith

abbrev pub line_share : Bool → Bool → ℤ → ℤ
line_share is_goods is_named x = if is_goods && is_named then x else pos 0

module _ (tenant id : ℕ) (ps : List Product) {p : Product}
    (found : find_product tenant id ps ≡ some p) where
  share-goods :
      (i : ℕ) (x : ℤ)
      → share (goods (find_product tenant i ps)) id x ≡ line_share p.is_goods (i == id) x
  share-goods i x = elim (Bool-cases (i == id)) [
    | inl hit ↦
        let same : i ≡ id = ground arith in
        let at_id : p.id ≡ id = (found_product tenant id ps found).0 in
        rw (same, found) (this_one at_id)
    | inr miss ↦ rw miss (other (find_product tenant i ps) miss refl)
  ]
    where
      this_one :
          p.id ≡ id → share (goods (some p)) id x ≡ (if p.is_goods && (id == id) then x else pos 0)
      this_one h = ground arith

      other :
          (o : Option Product)
          → (i == id) ≡ false
          → find_product tenant i ps ≡ o
          → share (goods o) id x ≡ (if p.is_goods && false then x else pos 0)
      other none miss e = ground arith
      other (some q) miss e = let at_i : q.id ≡ i = (found_product tenant i ps e).0 in ground arith

  share-named :
      (wanted : Option ℕ) (x : ℤ)
      → share (product_named tenant wanted ps) id x ≡ line_share p.is_goods (is_some_eq wanted id) x
  share-named none x = ground arith
  share-named (some i) x = share-goods i x

  named_same :
      (wanted : Option ℕ) {q : Product}
      → product_named tenant wanted ps ≡ some q
      → q.id ≡ p.id
      → q ≡ p
  named_same none h agree = cc
  named_same (some i) {q} h agree =
      let e : find_product tenant i ps ≡ some q = goods-some (find_product tenant i ps) h in
      let at_i : q.id ≡ i = (found_product tenant i ps e).0 in
      let at_id : p.id ≡ id = (found_product tenant id ps found).0 in
      let i_id : i ≡ id = sym at_i ∙ agree ∙ at_id in some-injective (sym e ∙ rw i_id found)

  pub zero_share :
      (x : ℤ) (l : DocumentLine)
      → (eqb_ℤ l.quantity (pos 0) ≡ true → x ≡ pos 0)
      → share (moved_goods tenant l ps) id x ≡ line_share p.is_goods (is_some_eq l.product_id id) x
  unfolding moved_goods
  zero_share x l none_of = elim (Bool-cases (eqb_ℤ l.quantity (pos 0))) [
    | inl hit ↦ rw (hit, none_of hit) (nothing (p.is_goods && is_some_eq l.product_id id))
    | inr miss ↦ rw miss (share-named l.product_id x)
  ]
    where
      nothing : (b : Bool) → pos 0 ≡ (if b then pos 0 else pos 0)
      nothing true = refl
      nothing false = refl

  pub moved_same :
      (l : DocumentLine) {q : Product} → moved_goods tenant l ps ≡ some q → q.id ≡ p.id → q ≡ p
  unfolding moved_goods
  moved_same l h agree = elim (Bool-cases (eqb_ℤ l.quantity (pos 0))) [
    | inl hit ↦ cc (rw hit at h)
    | inr miss ↦ named_same l.product_id (rw miss at h) agree
  ]
