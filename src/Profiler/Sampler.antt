-- ===== src/Profiler/Sampler.antt =====
-- `_SampledProfiler` of `hmasync_controller/profiler.py`: the sampling of a run, by one thread that has ended
-- before the next run starts. A tick is what the thread reads in one round.
use async_energy_controller.Base.{
  ℕ, ◌-◌, String, Bool, true, false, not, Option, none, some, List, [], ◌∷◌, ◌++◌, map, str_eq,
  if◌then◌else◌,
}
use async_energy_controller.Value.{Float, DateTime, null, datetime, Fields, end, field, get, put}
use async_energy_controller.Value.Number.{total_seconds}
use async_energy_controller.Value.Double.{zero_float}
use async_energy_controller.Executor.Run.{update}
use async_energy_controller.Profiler.{
  RunTelemetry, avg_peak, max_non_null, compute_energy, float_value,
}

-- `gpu` is `none` where the backend raises, and an empty dict where it has no reading.
pub record Tick : Type 0 where
  pub gpu : Option Fields
  pub rapl : Option Float
  pub clock : DateTime

pub record Sampler : Type 0 where
  pub samples : List Fields
  pub has_thread : Bool
  pub run_id : Option String
  pub t0 : Option ℕ
  pub energy_start : Option ℕ

abbrev pub new_sampler : Sampler
new_sampler = record {
  samples = [];
  has_thread = false;
  run_id = none;
  t0 = none;
  energy_start = none;
}

abbrev pub no_channels : Fields
no_channels = field "power_w" null (
    field "util_gpu" null (
      field "util_mem" null (
        field "mem_used_mb" null
          (field "temp_c" null (field "sm_clock_mhz" null (field "throttle_reasons" null end))))))

unfoldable pub sample_of : Tick → Fields
unfolding update put
sample_of tick =
    let channels : Fields = elim tick.gpu [
      | none ↦ no_channels
      | some gpu ↦ update no_channels gpu
    ] in
    put "ts" (datetime tick.clock) (put "cpu_rapl_uj" (float_value tick.rapl) channels)

unfoldable pub collect_one : Tick → Sampler → Sampler
unfolding sample_of
collect_one tick s = record s { samples = s.samples ++ sample_of tick ∷ [] }

-- The rounds of the thread, from its start to the stop.
unfoldable pub sample_loop : List Tick → Sampler → Sampler
unfolding collect_one
sample_loop [] s = s
sample_loop (tick ∷ ticks) s = sample_loop ticks (collect_one tick s)

-- With the readings of the monotonic clock and of the energy counter.
unfoldable pub start : String → ℕ → Option ℕ → Sampler → Sampler
start run_id now energy_mj s = record {
  samples = [];
  has_thread = true;
  run_id = some run_id;
  t0 = some now;
  energy_start = energy_mj;
}

abbrev pub own_id : Option String → String
own_id none = ""
own_id (some s) = s

-- `run_id or self._run_id or ""`.
unfoldable pub id_of : Option String → Option String → String
id_of none own = own_id own
id_of (some s) own = if str_eq s "" then own_id own else s

abbrev pub since : Option ℕ → ℕ → ℕ
since none now = 0
since (some t0) now = now - t0

-- Of a run that was never started.
abbrev pub duration_only : String → List String → RunTelemetry
duration_only run_id capabilities = record {
  run_id = run_id;
  duration_s = zero_float;
  samples = [];
  capabilities = capabilities;
  energy_wh = none;
  energy_source = none;
  avg_w = none;
  peak_w = none;
  gpu_mem_mb = none;
}

-- The monotonic clock does not run back, so the difference is not below 0.
unfoldable pub stop : Option String → ℕ → Option ℕ → List String → Sampler → RunTelemetry
unfolding avg_peak max_non_null compute_energy id_of total_seconds
stop run_id now energy_mj capabilities s =
    let (energy_wh, source) = compute_energy s.energy_start energy_mj s.samples in
    let (avg_w, peak_w) = avg_peak (map (get "power_w") s.samples) in
    if not s.has_thread then duration_only (id_of run_id s.run_id) capabilities else record {
      run_id = id_of run_id s.run_id;
      duration_s = total_seconds (since s.t0 now);
      samples = s.samples;
      capabilities = capabilities;
      energy_wh = energy_wh;
      energy_source = source;
      avg_w = avg_w;
      peak_w = peak_w;
      gpu_mem_mb = max_non_null (map (get "mem_used_mb") s.samples);
    }
