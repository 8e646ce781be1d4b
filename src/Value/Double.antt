-- ===== src/Value/Double.antt =====
-- Python's arithmetic on doubles, rounded to the nearest double and to the even one of two. There is
-- one zero.
use async_energy_controller.Base.{
  ℕ, zero, suc, ◌+◌, ◌-◌, ◌*◌, ◌/◌, ◌%◌, ◌^◌, ◌≡◌, refl, Bool, true, false, not, ◌&&◌, ◌||◌, ltb,
  leb, ◌==◌, Option, none, some, if◌then◌else◌,
}
use async_energy_controller.Base.Int.{ℤ, pos, negsuc, sub_ℕ, pos_part, neg_part, ◌+ℤ◌, ltb_ℤ, leb_ℤ}
use async_energy_controller.Value.{Float, finite, infinite, nan}
use async_energy_controller.Value.Number.{excess_bits}

-- num / den as a multiple of 2 ^ excess: the nearest, and the even one of two.
unfoldable pub round_at : ℕ → ℕ → ℕ → ℕ
round_at excess num den =
    let unit = 2 ^ excess in
    let low = num / den / unit in
    let rest = num - low * unit * den in
    let up = ltb (unit * den) (2 * rest) || ((2 * rest == unit * den) && (low % 2 == 1)) in
    (if up then low + 1 else low) * unit

-- The nearest whole number to num / den with a mantissa of 53 bits, for den > 0.
unfoldable pub nearest : ℕ → ℕ → ℕ
unfolding excess_bits round_at
nearest num den = round_at (excess_bits 4400 (num / den)) num den

abbrev pub magnitude : ℤ → ℕ
magnitude (pos n) = n
magnitude (negsuc n) = suc n

abbrev pub is_below_zero : ℤ → Bool
is_below_zero (pos n) = false
is_below_zero (negsuc n) = true

abbrev pub with_sign : Bool → ℕ → ℤ
with_sign true (suc n) = negsuc n
with_sign _ n = pos n

-- A rounded magnitude in units of 2 ^ -1074.
abbrev pub double_of : Bool → ℕ → Float
double_of negative n = if leb (2 ^ 2098) n then infinite negative else finite (with_sign negative n)

-- The nearest whole number to num / den, the even one of two.
abbrev pub half_even : ℕ → ℕ → ℕ
half_even num den =
    let low = num / den in
    let rest = 2 * (num % den) in
    if ltb den rest || ((rest == den) && (low % 2 == 1)) then low + 1 else low

-- The quotient of two integers.
unfoldable pub true_quotient : ℕ → ℕ → Float
unfolding nearest
true_quotient a b = double_of false (nearest (a * 2 ^ 1074) b)

unfoldable pub add : Float → Float → Float
unfolding nearest
add (finite a) (finite b) =
    let sum = a +ℤ b in double_of (is_below_zero sum) (nearest (magnitude sum) 1)
add (finite a) (infinite s) = infinite s
add (infinite s) (finite b) = infinite s
add (infinite true) (infinite true) = infinite true
add (infinite false) (infinite false) = infinite false
add _ _ = nan

abbrev pub differ : Bool → Bool → Bool
differ a b = if a then not b else b

abbrev pub infinite_times : Bool → ℤ → Float
infinite_times s (pos zero) = nan
infinite_times s a = infinite (differ s (is_below_zero a))

unfoldable pub multiply : Float → Float → Float
unfolding nearest
multiply (finite a) (finite b) =
    double_of (differ (is_below_zero a) (is_below_zero b))
      (nearest (magnitude a * magnitude b) (2 ^ 1074))
multiply (finite a) (infinite s) = infinite_times s a
multiply (infinite s) (finite a) = infinite_times s a
multiply (infinite s) (infinite t) = infinite (differ s t)
multiply _ _ = nan

-- `-x`
abbrev pub negated : Float → Float
negated (finite n) = finite (sub_ℕ (neg_part n) (pos_part n))
negated (infinite s) = infinite (not s)
negated nan = nan

-- `x - y`
unfoldable pub subtract : Float → Float → Float
unfolding add
subtract x y = add x (negated y)

-- `abs(x)`
abbrev pub absolute : Float → Float
absolute (finite n) = finite (pos (magnitude n))
absolute (infinite s) = infinite false
absolute nan = nan

-- `x / y`: `none` is the `ZeroDivisionError`.
unfoldable pub divide : Float → Float → Option Float
unfolding nearest
divide x (finite (pos zero)) = none
divide (finite a) (finite b) = some (
    double_of (differ (is_below_zero a) (is_below_zero b))
      (nearest (magnitude a * 2 ^ 1074) (magnitude b)))
divide (infinite s) (finite b) = some (infinite (differ s (is_below_zero b)))
divide (finite a) (infinite s) = some (finite (pos 0))
divide _ _ = some nan

-- By a whole number n > 0 below 2 ^ 53.
unfoldable pub divide_by : Float → ℕ → Float
unfolding nearest
divide_by (finite a) n = double_of (is_below_zero a) (nearest (magnitude a) n)
divide_by (infinite s) n = infinite s
divide_by nan n = nan

-- `a < b`.
unfoldable pub is_less : Float → Float → Bool
is_less (finite a) (finite b) = ltb_ℤ a b
is_less (finite a) (infinite negative) = not negative
is_less (infinite negative) (finite b) = negative
is_less (infinite a) (infinite b) = a && not b
is_less _ _ = false

-- `a >= b`.
unfoldable pub is_at_least : Float → Float → Bool
is_at_least (finite a) (finite b) = leb_ℤ b a
is_at_least (finite a) (infinite negative) = negative
is_at_least (infinite negative) (finite b) = not negative
is_at_least (infinite a) (infinite b) = b || not a
is_at_least _ _ = false

abbrev pub zero_float : Float
zero_float = finite (pos 0)

abbrev pub half : Float
half = finite (pos (2 ^ 1073))

-- 0.1 + 0.2
third : add (true_quotient 1 10) (true_quotient 2 10) ≡ finite (pos (5404319552844596 * 2 ^ 1020))
unfolding add true_quotient ◌+ℤ◌
third = refl
