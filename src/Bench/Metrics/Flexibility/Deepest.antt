-- ===== src/Bench/Metrics/Flexibility/Deepest.antt =====
-- The band of `hmasync_controller/bench/metrics/flexibility.py`.
use async_energy_controller.Base.{
  Option-cases, ap, ℕ, ◌≤◌, Bool, true, Option, none, some, List, [], ◌∷◌, All, ltb, if_elim, ◌≡◌,
  refl, ◌⊎◌, inl, inr, arith, Bool-cases, length, false,
}
use async_energy_controller.Value.{Float}
use async_energy_controller.Value.Double.{divide, multiply, is_at_least}
use async_energy_controller.Bench.Metrics.Flexibility.{
  Run, where_true, first_best, cap_of, deepest, zero_float, band, turndown,
  compute_flexibility_metrics, subtract, power_reference, turndown_threshold, min_sweep_points,
  whole, flex_band_threshold, sweep_of, cold_runs,
}

abbrev pub In : Run → List Run → Type 0
In r [] = ⊥
In r (x ∷ runs) = (r ≡ x) ⊎ In r runs

where_true-In :
    (p : Run → Bool) (runs : List Run) (r : Run)
    → In r (where_true p runs)
    → In r runs × (p r ≡ true)
unfolding where_true
where_true-In p [] r m = elim m [ ]
where_true-In p (x ∷ runs) r m = elim (Bool-cases (p x)) [
  | inl kept ↦ elim (rw kept at m) [
    | inl e ↦ (inl e, rw e kept)
    | inr later ↦ let (within, held) = where_true-In p runs r later in (inr within, held)
  ]
  | inr dropped ↦
      let (within, held) = where_true-In p runs r (rw dropped at m) in (inr within, held)
]

where_true-All :
    (p : Run → Bool) (Q : Run → Type 0) (runs : List Run)
    → All Q (where_true p runs)
    → All (λ x. p x ≡ true → Q x) runs
unfolding where_true
where_true-All p Q [] h = tt
where_true-All p Q (x ∷ runs) h = elim (Bool-cases (p x)) [
  | inl held ↦ let h' = rw held at h in ((λ _. h'.0), where_true-All p Q runs h'.1)
  | inr other ↦ ((λ e. absurd (ground arith)), where_true-All p Q runs (rw other at h))
]

module _ (cap : Run → Option ℕ) where
  abbrev lower : Run → Run → Bool
  lower x y = ltb (cap_of cap x) (cap_of cap y)

  first_best-In : (r : Run) (runs : List Run) → In (first_best lower r runs) (r ∷ runs)
  unfolding first_best
  first_best-In r [] = inl refl
  first_best-In r (x ∷ runs) =
      let first : In (first_best lower r runs) (r ∷ runs) = first_best-In r runs in
      let second : In (first_best lower x runs) (x ∷ runs) = first_best-In x runs in
      if_elim (λ (b : Run). In (first_best lower b runs) (r ∷ x ∷ runs)) (lower x r) x r
        (λ _. inr second) (λ _. elim first [ inl e ↦ inl e | inr later ↦ inr (inr later) ])

  first_best-le :
      (r : Run) (runs : List Run)
      → (cap_of cap (first_best lower r runs) ≤ cap_of cap r)
        × All (λ x. cap_of cap (first_best lower r runs) ≤ cap_of cap x) runs
  unfolding first_best
  first_best-le r [] = (omega arith, tt)
  first_best-le r (x ∷ runs) =
      let first = first_best-le r runs in
      let second = first_best-le x runs in
      if_elim
        (λ (b : Run).
          (cap_of cap (first_best lower b runs) ≤ cap_of cap r)
          × ((cap_of cap (first_best lower b runs) ≤ cap_of cap x)
              × All (λ y. cap_of cap (first_best lower b runs) ≤ cap_of cap y) runs))
        (lower x r) x r (λ less. (ground (arith, less, second.0), second))
        (λ more. (first.0, (ground (arith, more, first.0), first.1)))

  -- The run keeps the share of the throughput of the stock run.
  abbrev pub Keeps : Float → Run → Run → Type 0
  Keeps threshold stock r =
      is_at_least r.mean_tokens_per_second (multiply threshold stock.mean_tokens_per_second) ≡ true

  -- One of the capped runs that keep the share, with the lowest cap of those; none if none keeps it.
  abbrev pub IsDeepest : Float → Run → List Run → Option Run → Type 0
  IsDeepest threshold stock capped none = All (λ x. Keeps threshold stock x → ⊥) capped
  IsDeepest threshold stock capped (some r) =
      In r capped
      × Keeps threshold stock r
      × All (λ x. Keeps threshold stock x → cap_of cap r ≤ cap_of cap x) capped

  deepest-IsDeepest :
      (threshold : Float) (stock : Run) (capped : List Run)
      → IsDeepest threshold stock capped (deepest cap threshold stock capped)
  unfolding deepest
  deepest-IsDeepest threshold stock capped = settled (where_true keeps capped) refl
    where
      keeps : Run → Bool
      keeps r =
          is_at_least r.mean_tokens_per_second (multiply threshold stock.mean_tokens_per_second)

      settled :
          (kept : List Run)
          → where_true keeps capped ≡ kept
          → IsDeepest threshold stock capped
              (elim kept [ [] ↦ none | r ∷ runs ↦ some (first_best lower r runs) ])
      settled [] e = where_true-All keeps (λ _. ⊥) capped (rw e tt)
      settled (r ∷ runs) e =
          let best = first_best lower r runs in
          let (within, kept) = where_true-In keeps capped best (rw e (first_best-In r runs)) in
          (
            within,
            kept,
            where_true-All keeps (λ x. cap_of cap best ≤ cap_of cap x) capped
                (rw e (first_best-le r runs)),
          )

abbrev pub power : Run → Option ℕ
power r = r.power_limit_w

-- The reduction that a run stands for.
abbrev pub reduction : Run → Option Run → Float
reduction stock none = zero_float
reduction stock (some r) = subtract (power_reference stock) (whole (cap_of power r))

abbrev pub ratio : Run → Option Run → Option Float
ratio stock none = none
ratio stock (some cliff) = divide stock.mean_gpu_w cliff.mean_gpu_w

band-reduction :
    (stock : Run) (capped : List Run)
    → band power (power_reference stock) stock capped
      ≡ reduction stock (deepest power flex_band_threshold stock capped)
unfolding band
band-reduction stock capped = elim (Option-cases (deepest power flex_band_threshold stock capped)) [
  | inl e ↦ rw (band, e) refl
  | inr (r, e) ↦ rw (band, e) refl
]

turndown-ratio :
    (stock : Run) (capped : List Run)
    → turndown stock capped ≡ ratio stock (deepest power turndown_threshold stock capped)
unfolding turndown
turndown-ratio stock capped = elim (Option-cases (deepest power turndown_threshold stock capped)) [
  | inl e ↦ rw (turndown, e) refl
  | inr (r, e) ↦ rw (turndown, e) refl
]

-- In a sweep of at least four runs with a stock run, the band is the distance from the stock run to the lowest
-- cap at which a capped run keeps 95% of its throughput, and 0 where none does; the turndown ratio is that of
-- the stock run and the run with the lowest cap that keeps 50%, and withheld where none does. All runs count as
-- points, also those that are not cold.
pub compute_flexibility_metrics-IsDeepest :
    (runs : List Run) (stock : Run) (capped : List Run)
    → min_sweep_points ≤ length runs
    → sweep_of power (cold_runs runs) ≡ some (stock, capped)
    → let m = compute_flexibility_metrics runs in
      (best cliff : Option Run) × IsDeepest power flex_band_threshold stock capped best
      × (m.flex_band_w ≡ some (reduction stock best))
      × IsDeepest power turndown_threshold stock capped cliff
      × (m.turndown_ratio ≡ ratio stock cliff)
      × (m.n_points ≡ length runs)
unfolding compute_flexibility_metrics
compute_flexibility_metrics-IsDeepest runs stock capped h e =
    let enough : ltb (length runs) min_sweep_points ≡ false = ground (arith, h) in
    rw (enough, e)
      (
        deepest power flex_band_threshold stock capped,
        deepest power turndown_threshold stock capped,
        deepest-IsDeepest power flex_band_threshold stock capped,
        ap (λ (x : Float). some x) (band-reduction stock capped),
        deepest-IsDeepest power turndown_threshold stock capped,
        turndown-ratio stock capped,
        refl,
      )
