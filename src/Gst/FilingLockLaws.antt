-- ===== src/Gst/FilingLockLaws.antt =====
-- The periods that a filed return closes.
use text.Mathlib.Text.{◌==◌ as str_eq}
use text.Mathlib.TextEquality.{eq_iff}
use bookkeeping.Base.{
  All, Bool, Bool-cases, List, String, [], any_of, arith, false, inl, inr, ok, raise_if, refl, true,
  ℕ, ◌↔◌, ◌∷◌, ◌≡◌, ◌≤◌, ◌⊎◌,
}
use bookkeeping.Gst.FilingLock.{
  GstReturn, ensure_gst_period_mutable, ensure_outward_period_mutable, is_filed_for, period_filed,
}

-- A return that closes the outward documents of a date: the tenant's GSTR1 or GSTR3B, filed or
-- acknowledged, of a period with the date.
pub record Closes (tenant date : ℕ) (r : GstReturn) : Type 0 where
  pub of_tenant : r.tenant_id ≡ tenant
  pub outward : (r.return_type ≡ "GSTR1") ⊎ (r.return_type ≡ "GSTR3B")
  pub sent : (r.status ≡ "FILED") ⊎ (r.status ≡ "ACKNOWLEDGED")
  pub begun : r.period_start ≤ date
  pub unended : date ≤ r.period_end

one_of_two : (s a b : String) → any_of (str_eq s) (a ∷ b ∷ []) ≡ true → (s ≡ a) ⊎ (s ≡ b)
one_of_two s a b h = elim (Bool-cases (str_eq s a)) [
  | inl hit ↦ inl ((eq_iff s a).0 hit)
  | inr miss ↦ inr ((eq_iff s b).0 (ground arith))
]

of_two_one : (s a b : String) → (s ≡ a) ⊎ (s ≡ b) → any_of (str_eq s) (a ∷ b ∷ []) ≡ true
of_two_one s a b (inl e) = let hit = (eq_iff s a).1 e in ground arith
of_two_one s a b (inr e) = let hit = (eq_iff s b).1 e in ground arith

is_filed_for-Closes :
    (tenant date : ℕ) (r : GstReturn)
    → is_filed_for tenant date ("GSTR1" ∷ "GSTR3B" ∷ []) r ≡ true
    → Closes tenant date r
unfolding is_filed_for
is_filed_for-Closes tenant date r h = record {
  of_tenant = ground arith;
  outward = one_of_two r.return_type "GSTR1" "GSTR3B" (ground arith);
  sent = one_of_two r.status "FILED" "ACKNOWLEDGED" (ground arith);
  begun = ground arith;
  unended = ground arith;
}

Closes-is_filed_for :
    (tenant date : ℕ) (r : GstReturn)
    → Closes tenant date r
    → is_filed_for tenant date ("GSTR1" ∷ "GSTR3B" ∷ []) r ≡ true
unfolding is_filed_for
Closes-is_filed_for tenant date r c =
    let t = c.of_tenant in
    let o = of_two_one r.return_type "GSTR1" "GSTR3B" c.outward in
    let s = of_two_one r.status "FILED" "ACKNOWLEDGED" c.sent in
    let b = c.begun in let e = c.unended in rw (o, s) (ground arith)

none-Closes :
    (tenant date : ℕ) (rs : List GstReturn)
    → any_of (is_filed_for tenant date ("GSTR1" ∷ "GSTR3B" ∷ [])) rs ≡ false
    → All (λ r. ¬ Closes tenant date r) rs
none-Closes tenant date [] h = tt
none-Closes tenant date (r ∷ rs) h = (
  λ c. let closed = Closes-is_filed_for tenant date r c in ground arith,
  none-Closes tenant date rs (ground arith),
)

Closes-none :
    (tenant date : ℕ) (rs : List GstReturn)
    → All (λ r. ¬ Closes tenant date r) rs
    → any_of (is_filed_for tenant date ("GSTR1" ∷ "GSTR3B" ∷ [])) rs ≡ false
Closes-none tenant date [] h = refl
Closes-none tenant date (r ∷ rs) h =
    elim (Bool-cases (is_filed_for tenant date ("GSTR1" ∷ "GSTR3B" ∷ []) r)) [
      | inl hit ↦ absurd (h.0 (is_filed_for-Closes tenant date r hit))
      | inr miss ↦ rw miss (Closes-none tenant date rs h.1)
    ]

-- An outward document of a date may change exactly where no GSTR1 and no GSTR3B of its tenant for a
-- period with the date, both ends included, has the status FILED or ACKNOWLEDGED.
pub ensure_outward_period_mutable_iff :
    (returns : List GstReturn) (tenant date : ℕ)
    → (ensure_outward_period_mutable returns tenant date ≡ ok tt)
      ↔ All (λ r. ¬ Closes tenant date r) returns
unfolding ensure_outward_period_mutable ensure_gst_period_mutable
ensure_outward_period_mutable_iff returns tenant date = (
  λ h. none-Closes tenant date returns (passed _ h),
  λ h. rw (Closes-none tenant date returns h) refl,
)
  where
    passed : (b : Bool) → raise_if b period_filed ≡ ok tt → b ≡ false
    passed true h = cc
    passed false h = refl
