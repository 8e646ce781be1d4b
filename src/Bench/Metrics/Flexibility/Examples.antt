-- ===== src/Bench/Metrics/Flexibility/Examples.antt =====
-- A sweep over four caps of power, and the band that it shows.
use async_energy_controller.Base.{ℕ, Option, none, some, List, [], ◌∷◌, length, ◌≡◌, refl, arith}
use async_energy_controller.Base.Int.{◌+ℤ◌}
use async_energy_controller.Value.Double.{
  subtract, multiply, divide, is_less, is_at_least, true_quotient, add,
}
use async_energy_controller.Value.Exact.{whole}
use async_energy_controller.Bench.Metrics.Flexibility.{
  Run, flex_band_threshold, turndown_threshold, cold_runs, sweep_of, compute_flexibility_metrics,
  deepest, band, turndown,
}
use async_energy_controller.Bench.Metrics.Flexibility.Deepest.{
  power, reduction, ratio, IsDeepest, compute_flexibility_metrics-IsDeepest,
}

-- A cap, the tokens per second and the mean watts that were measured under it.
abbrev at_cap : Option ℕ → ℕ → ℕ → Run
at_cap cap speed watts = record {
  repeat_index = none;
  power_limit_w = cap;
  clock_lock_mhz = none;
  mean_gpu_w = whole watts;
  mean_gpu_sm_clock_mhz = none;
  mean_tokens_per_second = whole speed;
  joules_per_token = true_quotient watts speed;
}

abbrev stock : Run
stock = at_cap none 100 300

abbrev capped_runs : List Run
capped_runs = at_cap (some 250) 99 250 ∷ at_cap (some 200) 96 200 ∷ at_cap (some 150) 60 150 ∷ []

cold : sweep_of power (cold_runs (stock ∷ capped_runs)) ≡ some (stock, capped_runs)
unfolding sweep_of cold_runs
cold = refl

-- 300 - 200 watts, and 300 / 150.
measured :
    let m = compute_flexibility_metrics (stock ∷ capped_runs) in
    (m.flex_band_w ≡ some (whole 100)) × (m.turndown_ratio ≡ some (whole 2))
unfolding compute_flexibility_metrics cold_runs sweep_of band turndown deepest multiply subtract
    divide is_at_least is_less true_quotient add ◌+ℤ◌
measured = (refl, refl)

compute_flexibility_metrics-IsDeepest_example :
    let m = compute_flexibility_metrics (stock ∷ capped_runs) in
    (best cliff : Option Run) × IsDeepest power flex_band_threshold stock capped_runs best
    × (m.flex_band_w ≡ some (reduction stock best))
    × IsDeepest power turndown_threshold stock capped_runs cliff
    × (m.turndown_ratio ≡ ratio stock cliff)
    × (m.n_points ≡ length (stock ∷ capped_runs))
compute_flexibility_metrics-IsDeepest_example =
    compute_flexibility_metrics-IsDeepest (stock ∷ capped_runs) stock capped_runs (omega arith) cold
