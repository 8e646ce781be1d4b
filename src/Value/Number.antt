-- ===== src/Value/Number.antt =====
-- Python's conversions and tests of numbers: `float(n)` of an integer, with the rounding of a
-- double and its `OverflowError`.
use async_energy_controller.Base.{
  ℕ, zero, suc, ◌+◌, ◌-◌, ◌*◌, ◌/◌, ◌%◌, ◌^◌, ◌≡◌, refl, ◌&&◌, ◌||◌, Option, none, some, ltb, leb,
  ◌==◌, if◌then◌else◌, true, Bool, false,
}
use async_energy_controller.Base.Int.{ℤ, pos, negsuc}
use async_energy_controller.Value.{Float, finite, infinite}

-- How many halvings bring `n` below 2 ^ 53.
unfoldable pub excess_bits : ℕ → ℕ → ℕ
excess_bits zero n = 0
excess_bits (suc fuel) n =
    let rest = excess_bits fuel (n / 2) in if ltb n (2 ^ 53) then 0 else suc rest

-- The nearest whole number with a mantissa of 53 bits, the even one of two.
unfoldable pub round_mantissa : ℕ → ℕ
unfolding excess_bits
round_mantissa n =
    let unit = 2 ^ excess_bits 2200 n in
    let low = n / unit in
    let up = ltb unit (2 * (n % unit)) || ((2 * (n % unit) == unit) && (low % 2 == 1)) in
    if ltb n (2 ^ 53) then n else (if up then (low + 1) * unit else low * unit)

unfoldable pub float_of_ℕ : ℕ → Option ℕ
unfolding round_mantissa
float_of_ℕ n =
    if leb (2 ^ 1024) n
    then none
    else if leb (2 ^ 1024) (round_mantissa n)
    then none
    else some (round_mantissa n * 2 ^ 1074)

-- `float(n)`: `none` is the `OverflowError`.
unfoldable pub float_of_int : ℤ → Option Float
unfolding float_of_ℕ
float_of_int (pos n) = elim (float_of_ℕ n) [ none ↦ none | some m ↦ some (finite (pos m)) ]
float_of_int (negsuc n) = elim (float_of_ℕ (suc n)) [
  | none ↦ none
  | some m ↦ some (finite (negsuc (m - 1)))
]

pub float_of_int-overflow : (n : ℕ) → leb (2 ^ 1024) n ≡ true → float_of_int (pos n) ≡ none
unfolding float_of_int
float_of_int-overflow n h = rw (h, float_of_int)

-- `timedelta.total_seconds()` of a whole number of microseconds that is not negative. The quotient
-- in units of 2 ^ -1074 may be cut to a whole number before it is rounded: a multiple of 10 ^ -6
-- is never that near to the middle of two doubles without being it.
unfoldable pub total_seconds : ℕ → Float
unfolding round_mantissa
total_seconds us = finite (pos (round_mantissa (us * 2 ^ 1074 / 1_000_000)))

-- `x > 0`.
unfoldable pub is_positive : Float → Bool
is_positive (finite (pos zero)) = false
is_positive (finite (pos (suc n))) = true
is_positive (infinite false) = true
is_positive _ = false

total_seconds_minute : total_seconds 60_000_000 ≡ finite (pos (60 * 2 ^ 1074))
unfolding total_seconds
total_seconds_minute = refl

float_of_int_small : float_of_int (pos 300) ≡ some (finite (pos (300 * 2 ^ 1074)))
unfolding float_of_int
float_of_int_small = refl

float_of_int_tie : float_of_int (pos (2 ^ 53 + 1)) ≡ some (finite (pos (2 ^ 53 * 2 ^ 1074)))
unfolding float_of_int
float_of_int_tie = refl

float_of_int_huge : float_of_int (pos (10 ^ 400)) ≡ none
unfolding float_of_int
float_of_int_huge = refl
