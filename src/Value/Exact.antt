-- ===== src/Value/Exact.antt =====
-- Whole numbers below 2 ^ 53 as doubles: sums and differences of them are exact.
use native.Mathlib.Nat.{mul_assoc, mul_comm, pow-suc, mul-div_cancel, div-one, mul-sub}
use async_energy_controller.Base.{
  refl, ℕ, zero, suc, ◌+◌, ◌-◌, ◌*◌, ◌/◌, ◌^◌, ◌≤◌, ◌<◌, ◌≡◌, sym, ap, ◌∙◌, arith, Bool, false,
  true, leb, Bool-cases, inl, inr, ltb,
}
use async_energy_controller.Value.Number.{excess_bits}
use async_energy_controller.Value.Double.{
  nearest, round_at, with_sign, double_of, is_below_zero, magnitude, subtract, add, is_less,
  zero_float,
}
use async_energy_controller.Base.Int.{ℤ, pos, negsuc, sub_ℕ, ◌+ℤ◌}
use async_energy_controller.Value.{Float, finite}

double-pow : (n k : ℕ) → n * 2 ^ suc k ≡ n * 2 ^ k * 2
double-pow n k = rw (pow-suc 2 k) (sym (mul_assoc n (2 ^ k) 2))

excess_bits-le : (fuel k n : ℕ) → n < 2 ^ 53 → excess_bits fuel (n * 2 ^ k) ≤ k
unfolding excess_bits
excess_bits-le zero k n h = omega arith
excess_bits-le (suc fuel) zero n h = ground arith
excess_bits-le (suc fuel) (suc k) n h =
    let m = n * 2 ^ k in
    let halved : n * 2 ^ suc k / 2 ≡ m = rw (double-pow n k) (omega arith) in
    rw halved (ground (arith, excess_bits-le fuel k n h))

pow-add : (a b : ℕ) → 2 ^ (a + b) ≡ 2 ^ a * 2 ^ b
pow-add zero b = let e : 0 + b ≡ b = omega arith in rw e (omega arith)
pow-add (suc a) b =
    let e : suc a + b ≡ suc (a + b) = omega arith in
    rw (e, pow-suc 2 (a + b), pow-suc 2 a, pow-add a b)
      (mul_assoc (2 ^ a) (2 ^ b) 2
        ∙ ap (λ (x : ℕ). 2 ^ a * x) (mul_comm (2 ^ b) 2)
        ∙ sym (mul_assoc (2 ^ a) 2 (2 ^ b)))

pow_pos : (e : ℕ) → 0 < 2 ^ e
pow_pos zero = omega arith
pow_pos (suc e) = omega (arith, pow_pos e)

nearest_lem : (num : ℕ) → nearest num 1 ≡ round_at (excess_bits 4400 num) num 1
unfolding nearest
nearest_lem num = ap (λ (m : ℕ). round_at (excess_bits 4400 m) num 1) (div-one num)

-- A whole multiple of the unit is not rounded.
round_at-multiple : (e q : ℕ) → round_at e (q * 2 ^ e) 1 ≡ q * 2 ^ e
unfolding round_at
round_at-multiple e q =
    let whole : q * 2 ^ e / 1 ≡ q * 2 ^ e = omega arith in
    let low : q * 2 ^ e / 2 ^ e ≡ q = mul-div_cancel q (pow_pos e) in
    let nothing : 2 * (q * 2 ^ e - q * 2 ^ e * 1) ≡ 0 = omega arith in
    rw (whole, low, nothing) (ground (arith, pow_pos e))

nearest-whole : (k n : ℕ) → n < 2 ^ 53 → nearest (n * 2 ^ k) 1 ≡ n * 2 ^ k
nearest-whole k n h =
    let num = n * 2 ^ k in
    let e = excess_bits 4400 num in
    let d = k - e in
    let below : e ≤ k = excess_bits-le 4400 k n h in
    let split : k ≡ d + e = omega (arith, below) in
    let power : 2 ^ k ≡ 2 ^ d * 2 ^ e = ap (λ (x : ℕ). 2 ^ x) split ∙ pow-add d e in
    let multiple : num ≡ n * 2 ^ d * 2 ^ e =
      ap (λ (x : ℕ). n * x) power ∙ sym (mul_assoc n (2 ^ d) (2 ^ e)) in
    nearest_lem num
    ∙ ap (λ (x : ℕ). round_at e x 1) multiple
    ∙ round_at-multiple e (n * 2 ^ d)
    ∙ sym multiple

with_sign-false : (n : ℕ) → with_sign false n ≡ pos n
with_sign-false zero = refl
with_sign-false (suc n) = refl

double_of-small : (b : Bool) (n : ℕ) → n < 2 ^ 2098 → double_of b n ≡ finite (with_sign b n)
double_of-small b n h = let small : leb (2 ^ 2098) n ≡ false = ground (arith, h) in rw small refl

-- A difference of two numbers in units of 1 / p.
scaled : (a b p : ℕ) → a * p - b * p ≡ (a - b) * p
scaled a b p = rw (mul_comm a p, mul_comm b p, mul_comm (a - b) p) (sym (mul-sub p a b))

-- What an operation gives whose exact result is z.
abbrev result : ℤ → Float
result z = double_of (is_below_zero z) (nearest (magnitude z) 1)

-- The difference of two whole numbers, which may be negative.
abbrev pub gap : ℕ → ℕ → Float
gap a b = finite (sub_ℕ (a * 2 ^ 1074) (b * 2 ^ 1074))

abbrev pub whole : ℕ → Float
whole n = finite (pos (n * 2 ^ 1074))

result-pos : (n : ℕ) → n < 2 ^ 53 → result (pos (n * 2 ^ 1074)) ≡ whole n
result-pos n h =
    rw
      (
        nearest-whole 1074 n h,
        double_of-small false (n * 2 ^ 1074) (omega arith),
        with_sign-false (n * 2 ^ 1074),
      )
      refl

result-negsuc :
    (n m : ℕ) → n < 2 ^ 53 → suc m ≡ n * 2 ^ 1074 → result (negsuc m) ≡ finite (negsuc m)
result-negsuc n m h e =
    let rounded : nearest (suc m) 1 ≡ suc m = rw e (nearest-whole 1074 n h) in
    rw (rounded, double_of-small true (suc m) (omega arith)) refl

-- A difference of whole numbers is exact.
result-gap :
    (a b : ℕ) → a < 2 ^ 53 → b < 2 ^ 53 → result (sub_ℕ (a * 2 ^ 1074) (b * 2 ^ 1074)) ≡ gap a b
result-gap a b h k = elim (Bool-cases (leb (b * 2 ^ 1074) (a * 2 ^ 1074))) [
  | inl le ↦ rw (le, scaled a b (2 ^ 1074)) (result-pos (a - b) (omega arith))
  | inr gt ↦
      let m = b * 2 ^ 1074 - a * 2 ^ 1074 - 1 in
      rw gt (result-negsuc (b - a) m (omega arith) (ground arith))
]

minus_ℕ : (x y : ℕ) → pos x +ℤ sub_ℕ 0 y ≡ sub_ℕ x y
unfolding ◌+ℤ◌
minus_ℕ x y = ground arith

sub_ℕ-plus : (x y z : ℕ) → sub_ℕ x y +ℤ pos z ≡ sub_ℕ (x + z) y
unfolding ◌+ℤ◌
sub_ℕ-plus x y z = ground arith

pub subtract-whole : (a b : ℕ) → a < 2 ^ 53 → b < 2 ^ 53 → subtract (whole a) (whole b) ≡ gap a b
unfolding subtract
subtract-whole a b h k = rw (minus_ℕ (a * 2 ^ 1074) (b * 2 ^ 1074)) (result-gap a b h k)

pub add-gap : (a b n : ℕ) → a + n < 2 ^ 53 → b < 2 ^ 53 → add (gap a b) (whole n) ≡ gap (a + n) b
unfolding add
add-gap a b n h k =
    let sum : (a + n) * 2 ^ 1074 ≡ a * 2 ^ 1074 + n * 2 ^ 1074 = omega arith in
    rw (sub_ℕ-plus (a * 2 ^ 1074) (b * 2 ^ 1074) (n * 2 ^ 1074), ← sum) (result-gap (a + n) b h k)

pub gap-whole : (a b : ℕ) → b ≤ a → gap a b ≡ whole (a - b)
gap-whole a b h =
    let le : leb (b * 2 ^ 1074) (a * 2 ^ 1074) ≡ true = ground arith in
    rw (le, scaled a b (2 ^ 1074)) refl

-- The sign of a difference.
pub is_less-gap : (a b : ℕ) → is_less (gap a b) zero_float ≡ ltb a b
unfolding is_less
is_less-gap a b = ground arith

pub add-whole : (a b : ℕ) → a + b < 2 ^ 53 → add (whole a) (whole b) ≡ whole (a + b)
add-whole a b h =
    let zero_gap : (n : ℕ) → gap n 0 ≡ whole n = λ (n : ℕ).
      let same : n - 0 ≡ n = omega arith in
      gap-whole n 0 (omega arith) ∙ ap (λ (m : ℕ). whole m) same in
    rw (← zero_gap a) (add-gap a 0 b h (omega arith) ∙ zero_gap (a + b))
