-- ===== src/Gst/Places.antt =====
-- Where a supply is: within a state, in a union territory.
use bookkeeping.Base.{
  Bool, List, Option, [], ap, arith, codes, false, none, refl, some, some-injective, true, ℕ, ◌↔◌,
  ◌∷◌, ◌≡◌, ◌≢◌, ◌⊎◌,
}
use bookkeeping.Gst.Engine.{is_intra_state, is_union_territory}
use bookkeeping.Gst.StateCodes.{cleaned, is_empty, text_eq}

pub text_eq→eq : (cs ds : List ℕ) → text_eq cs ds ≡ true → cs ≡ ds
text_eq→eq [] [] h = refl
text_eq→eq [] (d ∷ ds) h = cc
text_eq→eq (c ∷ cs) [] h = cc
text_eq→eq (c ∷ cs) (d ∷ ds) h = ground (arith, text_eq→eq cs ds)

pub text_eq_self : (cs : List ℕ) → text_eq cs cs ≡ true
text_eq_self [] = refl
text_eq_self (c ∷ cs) = ground (arith, text_eq_self cs)

-- A supply stays within a state exactly where both codes, freed of white space, are there and equal
-- and the integrated tax is not forced.
pub is_intra_state_iff :
    (origin place : Option (List ℕ)) (force : Bool)
    → (is_intra_state origin place force ≡ true)
      ↔ ((cleaned origin ≡ cleaned place) × (cleaned origin ≢ []) × (force ≡ false))
unfolding is_intra_state
is_intra_state_iff origin place force = (to, from)
  where
    nonempty : (cs : List ℕ) → is_empty cs ≡ false → cs ≢ []
    nonempty [] h = cc
    nonempty (c ∷ cs) h = λ e. cc

    filled : (cs : List ℕ) → cs ≢ [] → is_empty cs ≡ false
    filled [] h = absurd (h refl)
    filled (c ∷ cs) h = refl

    to :
        is_intra_state origin place force ≡ true
        → (cleaned origin ≡ cleaned place) × (cleaned origin ≢ []) × (force ≡ false)
    to h =
        let same : text_eq (cleaned origin) (cleaned place) ≡ true = ground arith in
        let some_origin : is_empty (cleaned origin) ≡ false = ground arith in
        (text_eq→eq _ _ same, nonempty _ some_origin, ground arith)

    from :
        (cleaned origin ≡ cleaned place) × (cleaned origin ≢ []) × (force ≡ false)
        → is_intra_state origin place force ≡ true
    from h = rw (← h.0, filled (cleaned origin) h.1, text_eq_self (cleaned origin), h.2) refl

-- The place of supply, as it came, is the code of Chandigarh, of Dadra and Nagar Haveli and Daman and
-- Diu (two codes), of Lakshadweep, of the Andaman and Nicobar Islands or of Ladakh.
abbrev pub InTerritory : Option (List ℕ) → Type 0
InTerritory place =
    (place ≡ some (codes "04"))
    ⊎ ((place ≡ some (codes "25"))
        ⊎ ((place ≡ some (codes "26"))
            ⊎ ((place ≡ some (codes "31"))
                ⊎ ((place ≡ some (codes "35")) ⊎ (place ≡ some (codes "38"))))))

code_hit : (cs ds : List ℕ) → text_eq cs ds ≡ true → some cs ≡ some ds
code_hit cs ds h = ap some (text_eq→eq cs ds h)

code_held : (cs ds : List ℕ) → some cs ≡ some ds → text_eq cs ds ≡ true
code_held cs ds h = rw (some-injective h) (text_eq_self ds)

pub is_union_territory-InTerritory :
    (place : Option (List ℕ)) → is_union_territory place ≡ true → InTerritory place
is_union_territory-InTerritory none h = cc
is_union_territory-InTerritory (some cs) h =
    let a = code_hit cs (codes "04") in
    let b = code_hit cs (codes "25") in
    let c = code_hit cs (codes "26") in
    let d = code_hit cs (codes "31") in
    let e = code_hit cs (codes "35") in let f = code_hit cs (codes "38") in ground arith

pub InTerritory-is_union_territory :
    (place : Option (List ℕ)) → InTerritory place → is_union_territory place ≡ true
InTerritory-is_union_territory none h = ground arith
InTerritory-is_union_territory (some cs) h =
    let a = code_held cs (codes "04") in
    let b = code_held cs (codes "25") in
    let c = code_held cs (codes "26") in
    let d = code_held cs (codes "31") in
    let e = code_held cs (codes "35") in let f = code_held cs (codes "38") in ground arith
