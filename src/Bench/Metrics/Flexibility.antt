-- ===== src/Bench/Metrics/Flexibility.antt =====
-- `hmasync_controller/bench/metrics/flexibility.py`: what a sweep over caps of power or of the clock says.
-- The metrics of a run that are read are fields here; a run without a repeat index has none.
pub mod Deepest
pub mod Examples
use async_energy_controller.Base.{
  ℕ, zero, suc, ◌^◌, Bool, true, false, not, Option, none, some, List, [], ◌∷◌, length, ltb, ◌==◌,
  is_some, if◌then◌else◌,
}
use async_energy_controller.Base.Int.{pos}
use async_energy_controller.Base.Options.{◌>>=◌}
use async_energy_controller.Value.{Float, finite}
use async_energy_controller.Value.Double.{
  subtract, multiply, divide, is_less, is_at_least, true_quotient, zero_float,
}
use async_energy_controller.Value.Exact.{whole}

pub record Run : Type 0 where
  pub repeat_index : Option ℕ
  pub power_limit_w : Option ℕ
  pub clock_lock_mhz : Option ℕ
  pub mean_gpu_w : Float
  pub mean_gpu_sm_clock_mhz : Option Float
  pub mean_tokens_per_second : Float
  pub joules_per_token : Float

abbrev pub min_sweep_points : ℕ
min_sweep_points = 4

abbrev pub flex_band_threshold : Float
flex_band_threshold = true_quotient 95 100

abbrev pub turndown_threshold : Float
turndown_threshold = true_quotient 50 100

-- `[r for r in runs if p(r)]`
unfoldable pub where_true : (Run → Bool) → List Run → List Run
where_true p [] = []
where_true p (r ∷ runs) = let rest = where_true p runs in if p r then r ∷ rest else rest

-- `(r.repeat_index or 0) == 0`
abbrev pub is_cold : Run → Bool
is_cold r = elim r.repeat_index [ none ↦ true | some i ↦ i == 0 ]

-- The cold runs, or all where there is none.
unfoldable pub cold_runs : List Run → List Run
unfolding where_true
cold_runs runs = elim (where_true is_cold runs) [ [] ↦ runs | c ∷ cs ↦ c ∷ cs ]

-- The first of the runs that no other one beats: `max` or `min` with a key.
unfoldable pub first_best : (Run → Run → Bool) → Run → List Run → Run
first_best beats best [] = best
first_best beats best (r ∷ runs) = first_best beats (if beats r best then r else best) runs

-- The place of that run: `at` is that of `best`, `i` that of the next run.
unfoldable pub best_place : (Run → Run → Bool) → Run → ℕ → ℕ → List Run → ℕ
best_place beats best at i [] = at
best_place beats best at i (r ∷ runs) =
    best_place beats (if beats r best then r else best) (if beats r best then i else at) (suc i)
      runs

abbrev pub without : ℕ → List Run → List Run
without i [] = []
without zero (r ∷ runs) = runs
without (suc i) (r ∷ runs) = r ∷ without i runs

-- A cap of a run, and what is read of the runs that have one.
module _ (cap : Run → Option ℕ) where
  abbrev pub is_uncapped : Run → Bool
  is_uncapped r = not (is_some (cap r))

  abbrev pub cap_of : Run → ℕ
  cap_of r = elim (cap r) [ none ↦ 0 | some c ↦ c ]

  -- The stock run and the others; none where it is ambiguous. Where no run is uncapped, all have a cap, and
  -- where one is, all others have.
  unfoldable pub stock_of : List Run → List Run → Option (Run × List Run)
  unfolding where_true first_best best_place
  stock_of [] (r ∷ runs) =
      let beats : Run → Run → Bool = λ x y. ltb (cap_of y) (cap_of x) in
      some (first_best beats r runs, without (best_place beats r 0 1 runs) (r ∷ runs))
  stock_of [] [] = none
  stock_of (stock ∷ []) runs = some (stock, where_true (λ r. is_some (cap r)) runs)
  stock_of (stock ∷ other ∷ more) runs = none

  -- The stock run and the capped ones, where these are enough.
  unfoldable pub sweep_of : List Run → Option (Run × List Run)
  unfolding stock_of
  sweep_of runs = do
    (stock, capped) ← stock_of (where_true is_uncapped runs) runs
    if ltb (length capped) 3 then none else some (stock, capped)

  -- The capped run with the lowest cap of those that keep the share of the throughput of the stock run.
  unfoldable pub deepest : Float → Run → List Run → Option Run
  unfolding where_true
  deepest threshold stock capped =
      let floor = multiply threshold stock.mean_tokens_per_second in
      elim (where_true (λ r. is_at_least r.mean_tokens_per_second floor) capped) [
        | [] ↦ none
        | r ∷ runs ↦ some (first_best (λ x y. ltb (cap_of x) (cap_of y)) r runs)
      ]

  -- `reference` is the cap of the stock run, or what was measured there.
  unfoldable pub band : Float → Run → List Run → Float
  band reference stock capped = elim (deepest flex_band_threshold stock capped) [
    | none ↦ zero_float
    | some r ↦ subtract reference (whole (cap_of r))
  ]

-- `(stock - best) / stock * 100.0`, where the energy of the stock run is not 0.
unfoldable pub knee_savings : Run → List Run → Option Float
unfolding first_best
knee_savings stock [] = none
knee_savings stock (r ∷ capped) =
    let best = first_best (λ x y. is_less x.joules_per_token y.joules_per_token) r capped in
    do
      share ← divide (subtract stock.joules_per_token best.joules_per_token) stock.joules_per_token
      some (multiply share (whole 100))

-- Where the energy of the cliff is not 0.
unfoldable pub turndown : Run → List Run → Option Float
turndown stock capped = do
  cliff ← deepest (λ r. r.power_limit_w) turndown_threshold stock capped
  divide stock.mean_gpu_w cliff.mean_gpu_w

pub record FlexibilityMetrics : Type 0 where
  pub flex_band_w : Option Float
  pub knee_savings_pct : Option Float
  pub turndown_ratio : Option Float
  pub n_points : ℕ

abbrev pub empty_result : ℕ → FlexibilityMetrics
empty_result n = record {
  flex_band_w = none;
  knee_savings_pct = none;
  turndown_ratio = none;
  n_points = n;
}

abbrev pub power_reference : Run → Float
power_reference stock = elim stock.power_limit_w [ none ↦ stock.mean_gpu_w | some w ↦ whole w ]

abbrev pub flexibility_of : ℕ → Option (Run × List Run) → FlexibilityMetrics
flexibility_of n none = empty_result n
flexibility_of n (some (stock, capped)) = record {
  flex_band_w = some (band (λ r. r.power_limit_w) (power_reference stock) stock capped);
  knee_savings_pct = knee_savings stock capped;
  turndown_ratio = turndown stock capped;
  n_points = n;
}

unfoldable pub compute_flexibility_metrics : List Run → FlexibilityMetrics
compute_flexibility_metrics runs =
    if ltb (length runs) min_sweep_points
    then empty_result (length runs)
    else flexibility_of (length runs) (sweep_of (λ r. r.power_limit_w) (cold_runs runs))

pub record ClockFlexibility : Type 0 where
  pub clock_band_mhz : Option Float
  pub clock_knee_savings_pct : Option Float
  pub n_points : ℕ

abbrev pub clock_reference : Run → Option Float
clock_reference stock = elim stock.clock_lock_mhz [
  | none ↦ stock.mean_gpu_sm_clock_mhz
  | some c ↦ some (whole c)
]

abbrev pub empty_clock_result : ℕ → ClockFlexibility
empty_clock_result n = record { clock_band_mhz = none; clock_knee_savings_pct = none; n_points = n }

abbrev pub clock_flexibility_of : ℕ → Option (Run × List Run) → ClockFlexibility
clock_flexibility_of n none = empty_clock_result n
clock_flexibility_of n (some (stock, capped)) = record {
  clock_band_mhz = do
    reference ← clock_reference stock
    some (band (λ r. r.clock_lock_mhz) reference stock capped);
  clock_knee_savings_pct = knee_savings stock capped;
  n_points = n;
}

unfoldable pub compute_clock_flexibility_metrics : List Run → ClockFlexibility
compute_clock_flexibility_metrics runs =
    if ltb (length runs) min_sweep_points
    then empty_clock_result (length runs)
    else clock_flexibility_of (length runs) (sweep_of (λ r. r.clock_lock_mhz) runs)
