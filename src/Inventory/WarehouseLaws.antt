-- ===== src/Inventory/WarehouseLaws.antt =====
-- The warehouse that a stock movement goes to.
use bookkeeping.Base.{
  All, Bool, Bool-cases, List, Option, Option-cases, [], any_of, ap, arith, false, if◌then◌else◌,
  inl, inr, is_some, none, or_else, refl, some, some-injective, sym, true, ℕ, ◌&&◌, ◌==◌, ◌∙◌, ◌∷◌,
  ◌≡◌, ◌⊎◌,
}
use bookkeeping.Inventory.Warehouses.{
  Branch, Configured, branch_id, chosen, comes_before, earlier, first_usable, is_usable, malformed,
  resolve_default_warehouse_id, unset, usable_with_id,
}

-- A usable branch of the tenant that has the identifier.
abbrev pub is_choice : ℕ → ℕ → Branch → Bool
is_choice tenant id b = b.id == id && is_usable tenant b

usable_with_id-is_choice :
    (tenant id : ℕ) (bs : List Branch)
    → is_some (usable_with_id tenant id bs) ≡ any_of (is_choice tenant id) bs
unfolding usable_with_id
usable_with_id-is_choice tenant id [] = refl
usable_with_id-is_choice tenant id (b ∷ bs) = ground (arith, usable_with_id-is_choice tenant id bs)

usable_with_id-same :
    (tenant id : ℕ) (bs : List Branch) {w : ℕ} → usable_with_id tenant id bs ≡ some w → w ≡ id
unfolding usable_with_id
usable_with_id-same tenant id [] h = cc
usable_with_id-same tenant id (b ∷ bs) {w} h =
    ground (arith, usable_with_id-same tenant id bs {w = w})

first_usable-found :
    (tenant : ℕ) (bs : List Branch)
    → is_some (first_usable tenant bs) ≡ any_of (is_usable tenant) bs
unfolding first_usable
first_usable-found tenant [] = refl
first_usable-found tenant (b ∷ bs) =
    let rest = first_usable-found tenant bs in
    elim (Option-cases (first_usable tenant bs)) [
      | inl missing ↦ ground arith
      | inr (c, found) ↦ ground arith
    ]

comes_before_asym : (a b : Branch) → comes_before a b ≡ true → comes_before b a ≡ false
comes_before_asym a b h = ground arith

-- The branch that is found is the first of the list, which is usable, or one that was found after it.
first_usable-inversion :
    (tenant : ℕ) (b : Branch) (bs : List Branch) {c : Branch}
    → first_usable tenant (b ∷ bs) ≡ some c
    → (b ≡ c) × (is_usable tenant b ≡ true) ⊎ (first_usable tenant bs ≡ some c)
unfolding first_usable
first_usable-inversion tenant b bs h = pick (is_usable tenant b) (first_usable tenant bs) refl h
  where
    pick :
        (u : Bool) (rest : Option Branch) {c : Branch}
        → is_usable tenant b ≡ u
        → (if u then earlier b rest else rest) ≡ some c
        → (b ≡ c) × (is_usable tenant b ≡ true) ⊎ (rest ≡ some c)
    pick false rest p k = inr k
    pick true none p k = inl (some-injective k, p)
    pick true (some d) p k = elim (Bool-cases (comes_before d b)) [
      | inl before ↦ inr (ap some (ground arith))
      | inr not_before ↦ inl (ground arith, p)
    ]

first_usable-is_choice :
    (tenant : ℕ) (bs : List Branch) {c : Branch}
    → first_usable tenant bs ≡ some c
    → any_of (is_choice tenant c.id) bs ≡ true
unfolding first_usable
first_usable-is_choice tenant [] h = cc
first_usable-is_choice tenant (b ∷ bs) {c} h = elim (first_usable-inversion tenant b bs h) [
  | inl (same, usable) ↦ let e : b.id ≡ c.id = ap (λ x. x.id) same in ground arith
  | inr found ↦ ground (arith, first_usable-is_choice tenant bs found)
]

-- No usable branch comes before this one.
abbrev pub Oldest : ℕ → Branch → List Branch → Type 0
Oldest tenant c = All (λ b. is_usable tenant b ≡ true → comes_before b c ≡ false)

comes_before_trans :
    (a b c : Branch)
    → comes_before a b ≡ false
    → comes_before b c ≡ false
    → comes_before a c ≡ false
comes_before_trans a b c h k = ground arith

Oldest-before :
    (tenant : ℕ) (b d : Branch) (cs : List Branch)
    → comes_before d b ≡ false
    → Oldest tenant d cs
    → Oldest tenant b cs
Oldest-before tenant b d [] n o = tt
Oldest-before tenant b d (a ∷ cs) n o =
    (λ u. comes_before_trans a d b (o.0 u) n, Oldest-before tenant b d cs n o.1)

Oldest-unusable :
    (tenant : ℕ) (b : Branch) (cs : List Branch)
    → any_of (is_usable tenant) cs ≡ false
    → Oldest tenant b cs
Oldest-unusable tenant b [] n = tt
Oldest-unusable tenant b (a ∷ cs) n =
    let rest : any_of (is_usable tenant) cs ≡ false = ground arith in
    let unusable : is_usable tenant a ≡ false = ground arith in
    (λ u. cc, Oldest-unusable tenant b cs rest)

Oldest-equal :
    (tenant : ℕ) {b c : Branch} (cs : List Branch) → b ≡ c → Oldest tenant b cs → Oldest tenant c cs
Oldest-equal tenant [] e o = tt
Oldest-equal tenant (a ∷ cs) e o =
    (λ u. ap (comes_before a) (sym e) ∙ o.0 u, Oldest-equal tenant cs e o.1)

-- Taking one more branch into account.
Oldest-earlier :
    (tenant : ℕ) (b : Branch) (bs : List Branch) (u : Bool) (rest : Option Branch) {c : Branch}
    → is_usable tenant b ≡ u
    → is_some rest ≡ any_of (is_usable tenant) bs
    → ((d : Branch) → rest ≡ some d → Oldest tenant d bs)
    → (if u then earlier b rest else rest) ≡ some c
    → Oldest tenant c (b ∷ bs)
Oldest-earlier tenant b bs false rest {c} n f ih k = (λ u. cc, ih c k)
Oldest-earlier tenant b bs true none {c} p f ih k =
    let same : b ≡ c = some-injective k in
    Oldest-equal tenant (b ∷ bs) same (λ u. ground arith, Oldest-unusable tenant b bs (sym f))
Oldest-earlier tenant b bs true (some d) {c} p f ih k = elim (Bool-cases (comes_before d b)) [
  | inl before ↦
      let same : d ≡ c = ground arith in
      Oldest-equal tenant (b ∷ bs) same (λ u. comes_before_asym d b before, ih d refl)
  | inr not_before ↦
      let same : b ≡ c = ground arith in
      Oldest-equal tenant (b ∷ bs) same
        (λ u. ground arith, Oldest-before tenant b d bs not_before (ih d refl))
]

first_usable-Oldest :
    (tenant : ℕ) (bs : List Branch) {c : Branch}
    → first_usable tenant bs ≡ some c
    → Oldest tenant c bs
unfolding first_usable
first_usable-Oldest tenant [] h = tt
first_usable-Oldest tenant (b ∷ bs) h =
    Oldest-earlier tenant b bs (is_usable tenant b) (first_usable tenant bs) refl
      (first_usable-found tenant bs) (λ d k. first_usable-Oldest tenant bs k) h

-- The tenant's setting names a usable branch.
abbrev pub is_configured : ℕ → Configured → List Branch → Bool
is_configured tenant (chosen id) bs = any_of (is_choice tenant id) bs
is_configured tenant _ bs = false

-- The default warehouse of a tenant: the configured branch where it is usable, else the oldest usable
-- branch, else none.
pub data DefaultWarehouse (bs : List Branch) (tenant : ℕ) : Configured → Option ℕ → Type 0 where
  as_configured :
      {id : ℕ}
      → any_of (is_choice tenant id) bs ≡ true
      → DefaultWarehouse bs tenant (chosen id) (some id)
  oldest :
      {setting : Configured} (b : Branch)
      → is_configured tenant setting bs ≡ false
      → any_of (is_choice tenant b.id) bs ≡ true
      → Oldest tenant b bs
      → DefaultWarehouse bs tenant setting (some b.id)
  no_branch :
      {setting : Configured}
      → any_of (is_usable tenant) bs ≡ false
      → DefaultWarehouse bs tenant setting none

DefaultWarehouse-found :
    (bs : List Branch) (tenant : ℕ) (setting : Configured) (found : Option Branch)
    → first_usable tenant bs ≡ found
    → is_configured tenant setting bs ≡ false
    → DefaultWarehouse bs tenant setting (branch_id found)
DefaultWarehouse-found bs tenant setting none h n =
    no_branch (sym (first_usable-found tenant bs) ∙ ap is_some h)
DefaultWarehouse-found bs tenant setting (some b) h n =
    oldest b n (first_usable-is_choice tenant bs h) (first_usable-Oldest tenant bs h)

DefaultWarehouse-chosen :
    (bs : List Branch) (tenant id : ℕ) (own : Option ℕ)
    → usable_with_id tenant id bs ≡ own
    → DefaultWarehouse bs tenant (chosen id) (or_else own (branch_id (first_usable tenant bs)))
DefaultWarehouse-chosen bs tenant id none h =
    DefaultWarehouse-found bs tenant (chosen id) _ refl
      (sym (usable_with_id-is_choice tenant id bs) ∙ ap is_some h)
DefaultWarehouse-chosen bs tenant id (some w) h =
    rw (usable_with_id-same tenant id bs h)
      (as_configured (sym (usable_with_id-is_choice tenant id bs) ∙ ap is_some h))

-- `resolve_default_warehouse_id` gives the tenant's default warehouse: the configured branch where it is
-- a usable branch of the tenant, else the usable branch that was made first, and none only where the
-- tenant has no usable branch.
pub resolve_default_warehouse_id-DefaultWarehouse :
    (bs : List Branch) (setting : Configured) (tenant : ℕ)
    → DefaultWarehouse bs tenant setting (resolve_default_warehouse_id bs setting tenant)
unfolding resolve_default_warehouse_id
resolve_default_warehouse_id-DefaultWarehouse bs unset tenant =
    DefaultWarehouse-found bs tenant unset _ refl refl
resolve_default_warehouse_id-DefaultWarehouse bs malformed tenant =
    DefaultWarehouse-found bs tenant malformed _ refl refl
resolve_default_warehouse_id-DefaultWarehouse bs (chosen id) tenant =
    DefaultWarehouse-chosen bs tenant id _ refl
