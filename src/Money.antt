-- ===== src/Money.antt =====
-- Amounts of money: the values of the `Numeric(15, 4)` columns of
-- backend/src/infrastructure/database/models.py, as the integer number of ten-thousandths of a
-- rupee, and the two roundings that the program applies to them (`Decimal.quantize`).
use bookkeeping.Base.{arith, if◌then◌else◌, ltb, suc, ℕ, ◌%◌, ◌*◌, ◌+◌, ◌/◌, ◌==◌, ◌≡◌, ◌≤◌}
use bookkeeping.Int.{neg, neg_part, negsuc, pos, pos_part, ℤ, ◌+ℤ◌, ◌-ℤ◌, ◌≤ℤ◌}

-- `Decimal.quantize(Decimal("0.01"))` in the default context: to the nearest hundredth, and a tie
-- goes to the even one.
unfoldable pub half_even : ℕ → ℕ
half_even n =
    let q = n / 100 in
    let r = n % 100 in
    if ltb r 50
    then q * 100
    else if ltb 50 r
    then (q + 1) * 100
    else if q % 2 == 0
    then q * 100
    else (q + 1) * 100

unfoldable pub quantize : ℤ → ℤ
unfolding half_even
quantize (pos n) = pos (half_even n)
quantize (negsuc n) = neg (pos (half_even (suc n)))

-- Whole paise.
abbrev pub IsPaise : ℤ → Type 0
IsPaise x = (pos_part x % 100 ≡ 0) × (neg_part x % 100 ≡ 0)

-- The value lies within half a paisa of what is rounded, and is whole paise.
pub half_even_nearest :
    (n : ℕ) → (half_even n ≤ n + 50) × (n ≤ half_even n + 50) × (half_even n % 100 ≡ 0)
unfolding half_even
half_even_nearest n = ground arith

pub half_even-paise : (n : ℕ) → n % 100 ≡ 0 → half_even n ≡ n
unfolding half_even
half_even-paise n h = ground arith

pub quantize-paise : (x : ℤ) → IsPaise x → quantize x ≡ x
unfolding quantize neg
quantize-paise (pos n) h = ground (arith, half_even-paise n)
quantize-paise (negsuc n) h = ground (arith, half_even-paise (suc n))

pub quantize-IsPaise : (x : ℤ) → IsPaise (quantize x)
unfolding quantize neg
quantize-IsPaise (pos n) = ground (arith, half_even_nearest n)
quantize-IsPaise (negsuc n) = ground (arith, half_even_nearest (suc n))

pub quantize_nonneg : (x : ℤ) → pos 0 ≤ℤ x → pos 0 ≤ℤ quantize x
unfolding quantize
quantize_nonneg (pos n) h = omega arith
quantize_nonneg (negsuc n) h = absurd (omega arith)

pub IsPaise-add : (x y : ℤ) → IsPaise x → IsPaise y → IsPaise (x +ℤ y)
unfolding ◌+ℤ◌
IsPaise-add x y h k = ground arith

pub IsPaise-sub : (x y : ℤ) → IsPaise x → IsPaise y → IsPaise (x -ℤ y)
unfolding ◌-ℤ◌
IsPaise-sub x y h k = ground arith
