-- ===== src/Gst/Decimals.antt =====
-- `Decimal` values as they come in, and the engine's two roundings (`quantize_decimal` and
-- `quantize_reporting` of backend/src/domains/taxation/services.py). A decimal is its coefficient and
-- its number of places; one with a positive exponent is written out with no places. Rounded values
-- are counted in ten-thousandths. Results stay below the 28 digits of Python's default context, as
-- any amount of a `Numeric(15, 4)` column does.
use bookkeeping.Base.{
  Bool, arith, if◌then◌else◌, leb, ℕ, ◌%◌, ◌*◌, ◌+◌, ◌-◌, ◌/◌, ◌<◌, ◌^◌, ◌≡◌, ◌≤◌,
}
use bookkeeping.Int.{ltb_ℤ, pos, pos_part, ℤ}

pub record Decimal : Type 0 where
  pub coefficient : ℤ
  pub places : ℕ

-- `value < Decimal("0.00")`
unfoldable pub is_negative : Decimal → Bool
is_negative d = ltb_ℤ d.coefficient (pos 0)

-- `value > Decimal("100.00")`
unfoldable pub exceeds_hundred : Decimal → Bool
exceeds_hundred d = ltb_ℤ (pos (100 * 10 ^ d.places)) d.coefficient

-- `ROUND_HALF_UP` of n / m for a positive m.
unfoldable pub half_up : ℕ → ℕ → ℕ
half_up n m = (2 * n + m) / (2 * m)

-- `quantize_decimal` of a value that is not negative, in ten-thousandths.
unfoldable pub quantize_decimal : Decimal → ℕ
unfolding half_up
quantize_decimal d =
    let n = pos_part d.coefficient in
    if leb d.places 4 then n * 10 ^ (4 - d.places) else half_up n (10 ^ (d.places - 4))

-- `quantize_reporting` of a number of ten-thousandths.
unfoldable pub quantize_reporting : ℕ → ℕ
quantize_reporting n = (n + 50) / 100 * 100

-- The nearest number of whole paise, and a tie goes up.
pub quantize_reporting_nearest :
    (n : ℕ)
    → (quantize_reporting n ≤ n + 50)
      × (n < quantize_reporting n + 50)
      × (quantize_reporting n % 100 ≡ 0)
unfolding quantize_reporting
quantize_reporting_nearest n = omega arith

pub quantize_reporting-paise : (n : ℕ) → n % 100 ≡ 0 → quantize_reporting n ≡ n
unfolding quantize_reporting
quantize_reporting-paise n h = omega arith
