-- ===== src/Bench/Metrics/Examples.antt =====
-- Runs of the counters of energy.
use async_energy_controller.Base.{ℕ, none, some, List, [], ◌∷◌, map, ◌≡◌, refl, arith}
use async_energy_controller.Base.Int.{◌+ℤ◌}
use async_energy_controller.Value.{Float}
use async_energy_controller.Value.Double.{add, subtract, divide, is_less}
use async_energy_controller.Value.Exact.{whole}
use async_energy_controller.Bench.Metrics.{
  TelemetrySample, sum_deltas, wrap_corrected_rapl_energy_j, no_counter, counter_energy,
  compute_sampler_gaps,
}
use async_energy_controller.Bench.Metrics.Wrapped.{shown, wrap_corrected-true}

-- A counter that counts up to ten million wraps twice.
twice :
    wrap_corrected_rapl_energy_j
      (whole 9_000_000 ∷ whole 4_000_000 ∷ whole 3_000_000 ∷ [])
      (some (whole 10_000_000))
    ≡ some (whole 14)
unfolding wrap_corrected_rapl_energy_j sum_deltas add subtract divide is_less ◌+ℤ◌
twice = refl

unknown_range : wrap_corrected_rapl_energy_j (whole 9 ∷ whole 4 ∷ []) none ≡ none
unfolding wrap_corrected_rapl_energy_j sum_deltas subtract is_less ◌+ℤ◌
unknown_range = refl

wrap_corrected-true_example :
    wrap_corrected_rapl_energy_j (map (shown 10) (8 ∷ 13 ∷ 21 ∷ [])) (some (whole 10))
    ≡ divide (whole 13) (whole 1_000_000)
wrap_corrected-true_example =
    wrap_corrected-true 10 8 13 (21 ∷ []) (omega arith) (omega arith) (omega arith) (omega arith)

-- A counter that was reset shows no energy.
reset : counter_energy (whole 5_000 ∷ whole 2_000 ∷ []) (whole 3) ≡ no_counter
unfolding counter_energy subtract is_less ◌+ℤ◌
reset = refl

abbrev at_time : ℕ → TelemetrySample
at_time n = record {
  ts = whole n;
  gpu_energy_mj = none;
  cpu_rapl_uj = none;
  cpu_rapl_dram_uj = none;
}

abbrev first_of : List Float → Float
first_of [] = whole 0
first_of (x ∷ xs) = x

asleep :
    compute_sampler_gaps first_of (at_time 1 ∷ at_time 31 ∷ at_time 99 ∷ [])
    ≡ (some (whole 68), some 1)
unfolding compute_sampler_gaps subtract is_less ◌+ℤ◌
asleep = refl
