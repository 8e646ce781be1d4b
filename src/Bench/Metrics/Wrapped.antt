-- ===== src/Bench/Metrics/Wrapped.antt =====
-- The counters of energy that wrap: `_wrap_corrected_rapl_energy_j` of
-- `hmasync_controller/bench/metrics/compute.py`.
use native.Mathlib.Nat.{mod-lt}
use async_energy_controller.Base.{
  ℕ, ◌+◌, ◌-◌, ◌%◌, ◌^◌, ◌≤◌, ◌<◌, some, List, [], ◌∷◌, map, ltb, ◌≡◌, refl, ◌∙◌, ap, Bool-cases,
  inl, inr, arith,
}
use async_energy_controller.Value.{Float}
use async_energy_controller.Bench.Metrics.{
  sum_deltas, wrap_corrected_rapl_energy_j, divide, zero_float,
}
use async_energy_controller.Value.Exact.{
  whole, subtract-whole, add-gap, gap-whole, is_less-gap, add-whole,
}

mod-plus : (t d n : ℕ) → d < n → t % n + d < n → (t + d) % n ≡ t % n + d
mod-plus t d n h k = grind arith

mod-wrap : (t d n : ℕ) → d < n → n ≤ t % n + d → (t + d) % n ≡ t % n + d - n
mod-wrap t d n h k = grind arith

-- From one reading to a higher one there was no wrap, to a lower one there was one.
kept_step : (t d n : ℕ) → d < n → t % n ≤ (t + d) % n → (t + d) % n - t % n ≡ d
kept_step t d n h le = elim (Bool-cases (ltb (t % n + d) n)) [
  | inl below ↦ ground (arith, mod-plus t d n h)
  | inr above ↦ ground (arith, mod-wrap t d n h)
]

wrapped_step : (t d n : ℕ) → d < n → (t + d) % n < t % n → (t + d) % n + n - t % n ≡ d
wrapped_step t d n h lt = elim (Bool-cases (ltb (t % n + d) n)) [
  | inl below ↦ ground (arith, mod-plus t d n h)
  | inr above ↦ ground (arith, mod-wrap t d n h)
]

-- The true energies of the samples, in microjoules: they do not fall, and between two samples the counter,
-- which counts up to n, wraps at most once.
abbrev pub Grows : ℕ → ℕ → List ℕ → Type 0
Grows n t [] = Unit
Grows n t (u ∷ us) = (t ≤ u) × (u < t + n) × Grows n u us

abbrev pub final_of : ℕ → List ℕ → ℕ
final_of t [] = t
final_of t (u ∷ us) = final_of u us

Grows-le : (n t : ℕ) (us : List ℕ) → Grows n t us → t ≤ final_of t us
Grows-le n t [] g = omega arith
Grows-le n t (u ∷ us) (le, lt, g) = omega (arith, Grows-le n u us g)

-- What the counter shows at an energy.
abbrev pub shown : ℕ → ℕ → Float
shown n t = whole (t % n)

-- A step of the loop, between two readings.
sum_deltas_step :
    (n total a b : ℕ) (rest : List Float)
    → n ≤ 2 ^ 52
    → a < n
    → b < n
    → (d : ℕ) → (a < b → a + n - b ≡ d)
    → (b ≤ a → a - b ≡ d)
    → total + d < 2 ^ 53
    → sum_deltas (some (whole n)) (whole total) (whole b) (whole a ∷ rest)
      ≡ sum_deltas (some (whole n)) (whole (total + d)) (whole a) rest
unfolding sum_deltas
sum_deltas_step n total a b rest k below_a below_b d wrapped kept small =
    let delta = subtract-whole a b (omega arith) (omega arith) in
    elim (Bool-cases (ltb a b)) [
      | inl wrap ↦
          let over : a + n - b ≡ d = wrapped (ground arith) in
          let corrected =
            add-gap a b n (omega arith) (omega arith)
            ∙ gap-whole (a + n) b (omega arith)
            ∙ ap (λ (x : ℕ). whole x) over in
          rw (delta, is_less-gap a b, wrap, corrected, add-whole total d small) refl
      | inr same ↦
          let over : a - b ≡ d = kept (ground arith) in
          let plain = gap-whole a b (ground arith) ∙ ap (λ (x : ℕ). whole x) over in
          rw (delta, is_less-gap a b, same, plain, add-whole total d small) refl
    ]

sum_deltas-true :
    (n start t : ℕ) (us : List ℕ)
    → 0 < n
    → n ≤ 2 ^ 52
    → start ≤ t
    → Grows n t us
    → final_of t us - start < 2 ^ 53
    → sum_deltas (some (whole n)) (whole (t - start)) (shown n t) (map (shown n) us)
      ≡ some (whole (final_of t us - start))
unfolding sum_deltas
sum_deltas-true n start t [] h k s g small = refl
sum_deltas-true n start t (u ∷ us) h k s (le, lt, g) small =
    let d = u - t in
    let later : u ≡ t + d = omega arith in
    let step =
      sum_deltas_step n (t - start) (u % n) (t % n) (map (shown n) us) k (mod-lt u h) (mod-lt t h) d
        (λ w.
          let w' : (t + d) % n < t % n = rw later at w in
          ap (λ (x : ℕ). x % n + n - t % n) later ∙ wrapped_step t d n (omega arith) w')
        (λ w.
          let w' : t % n ≤ (t + d) % n = rw later at w in
          ap (λ (x : ℕ). x % n - t % n) later ∙ kept_step t d n (omega arith) w')
        (omega (arith, Grows-le n u us g)) in
    let moved : t - start + d ≡ u - start = omega arith in
    step ∙ rw moved (sum_deltas-true n start u us h k (omega arith) g small)

-- Where the readings are those of a counter that counts up to n microjoules, at most 2 ^ 52, and between two
-- samples wraps at most once, the result is the true energy of the run, in joules, rounded once: no wrap adds
-- or loses anything, and the sum has no rounding error.
pub wrap_corrected-true :
    (n start next : ℕ) (us : List ℕ)
    → 0 < n
    → n ≤ 2 ^ 52
    → Grows n start (next ∷ us)
    → final_of next us - start < 2 ^ 53
    → wrap_corrected_rapl_energy_j (map (shown n) (start ∷ next ∷ us)) (some (whole n))
      ≡ divide (whole (final_of next us - start)) (whole 1_000_000)
unfolding wrap_corrected_rapl_energy_j
wrap_corrected-true n start next us h k g small =
    let none_yet : start - start ≡ 0 = omega arith in
    let zero_total : whole (start - start) ≡ zero_float = rw none_yet refl in
    rw (← zero_total, sum_deltas-true n start start (next ∷ us) h k (omega arith) g small) refl
