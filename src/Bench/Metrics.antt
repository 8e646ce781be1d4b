-- ===== src/Bench/Metrics.antt =====
-- The energy of a run in `hmasync_controller/bench/metrics/compute.py`, as its counters and samples tell it.
-- The channels of a sample that a metric reads are fields here.
pub mod Wrapped
pub mod Flexibility
pub mod Examples
use async_energy_controller.Base.{
  ℕ, suc, ◌^◌, Bool, Option, none, some, List, [], ◌∷◌, length, if◌then◌else◌, ◌*◌,
}
use async_energy_controller.Base.Int.{pos}
use async_energy_controller.Base.Options.{◌>>=◌}
use async_energy_controller.Value.{Float, finite}
use async_energy_controller.Value.Exact.{whole}
use async_energy_controller.Value.Double.{
  add, subtract, multiply, divide, is_less, true_quotient, zero_float,
}

pub record TelemetrySample : Type 0 where
  pub ts : Float
  pub gpu_energy_mj : Option Float
  pub cpu_rapl_uj : Option Float
  pub cpu_rapl_dram_uj : Option Float

-- The readings that are not None.
abbrev pub readings_of : (TelemetrySample → Option Float) → List TelemetrySample → List Float
readings_of channel [] = []
readings_of channel (s ∷ samples) =
    let rest = readings_of channel samples in
    elim (channel s) [ none ↦ rest | some reading ↦ reading ∷ rest ]

-- The loop over pairs of readings, from `prev` on; none where a wrap cannot be corrected.
unfoldable pub sum_deltas : Option Float → Float → Float → List Float → Option Float
sum_deltas max_range total prev [] = some total
sum_deltas max_range total prev (cur ∷ readings) =
    let delta = subtract cur prev in
    let kept = sum_deltas max_range (add total delta) cur readings in
    let wrapped : Option Float = elim max_range [
      | none ↦ none
      | some range ↦ sum_deltas max_range (add total (add delta range)) cur readings
    ] in
    if is_less delta zero_float then wrapped else kept

unfoldable pub wrap_corrected_rapl_energy_j : List Float → Option Float → Option Float
wrap_corrected_rapl_energy_j (first ∷ second ∷ readings) max_energy_range_uj = do
  total_uj ← sum_deltas max_energy_range_uj zero_float first (second ∷ readings)
  divide total_uj (whole 1_000_000)
wrap_corrected_rapl_energy_j _ max_energy_range_uj = none

unfoldable pub compute_cpu_energy : List TelemetrySample → Option Float → Option Float
compute_cpu_energy samples max_range =
    wrap_corrected_rapl_energy_j (readings_of (λ s. s.cpu_rapl_uj) samples) max_range

unfoldable pub compute_cpu_dram_energy : List TelemetrySample → Option Float → Option Float
compute_cpu_dram_energy samples max_range =
    wrap_corrected_rapl_energy_j (readings_of (λ s. s.cpu_rapl_dram_uj) samples) max_range

abbrev pub last_reading : Float → List Float → Float
last_reading r [] = r
last_reading r (s ∷ readings) = last_reading s readings

pub record CounterEnergy : Type 0 where
  pub total_joules_gpu_counter : Option Float
  pub counter_vs_integration_pct_diff : Option Float

abbrev pub no_counter : CounterEnergy
no_counter = record { total_joules_gpu_counter = none; counter_vs_integration_pct_diff = none }

-- `100.0 * (integrated - joules) / joules`
unfoldable pub pct_diff : Float → Float → Option Float
unfolding divide multiply subtract
pct_diff integrated joules = divide (multiply (whole 100) (subtract integrated joules)) joules

-- Of the joules that the counter shows.
unfoldable pub counter_energy_of : Float → Float → CounterEnergy
unfolding pct_diff is_less
counter_energy_of integrated joules = if is_less joules zero_float then no_counter else record {
  total_joules_gpu_counter = some joules;
  counter_vs_integration_pct_diff =
      if is_less zero_float joules then pct_diff integrated joules else none;
}

unfoldable pub counter_energy : List Float → Float → CounterEnergy
unfolding counter_energy_of divide subtract
counter_energy (first ∷ second ∷ readings) integrated =
    elim (divide (subtract (last_reading second readings) first) (whole 1_000)) [
      | none ↦ no_counter
      | some joules ↦ counter_energy_of integrated joules
    ]
counter_energy _ integrated = no_counter

unfoldable pub compute_counter_energy : List TelemetrySample → Float → CounterEnergy
unfolding counter_energy
compute_counter_energy samples integrated =
    counter_energy (readings_of (λ s. s.gpu_energy_mj) samples) integrated

abbrev pub sampler_gap_threshold_s : Float
sampler_gap_threshold_s = whole 30

-- The times between samples that are longer than the threshold.
unfoldable pub long_gaps : List TelemetrySample → List Float
unfolding subtract is_less
long_gaps (earlier ∷ later ∷ samples) =
    let rest = long_gaps (later ∷ samples) in
    let between = subtract later.ts earlier.ts in
    if is_less sampler_gap_threshold_s between then between ∷ rest else rest
long_gaps _ = []

-- `total` is Python's `sum`. The seconds and the number of the gaps, where there are two samples.
unfoldable pub compute_sampler_gaps :
    (List Float → Float) → List TelemetrySample → Option Float × Option ℕ
unfolding long_gaps
compute_sampler_gaps total (earlier ∷ later ∷ samples) =
    let gaps = long_gaps (earlier ∷ later ∷ samples) in (some (total gaps), some (length gaps))
compute_sampler_gaps total _ = (none, none)
