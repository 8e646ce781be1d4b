-- ===== src/Profiler/Examples.antt =====
-- Runs of the profiler.
use async_energy_controller.Base.{
  ℕ, ◌^◌, ◌*◌, ◌≡◌, refl, String, ◌≤◌, arith, false, true, none, some, List, [], ◌∷◌, str_eq,
  if◌then◌else◌,
}
use async_energy_controller.Base.Int.{pos, ◌-ℤ◌, ◌+ℤ◌}
use async_energy_controller.Value.{finite, DateTime, Value, float, end, field, get}
use async_energy_controller.Executor.Schedule.{instant}
use async_energy_controller.Value.Number.{is_positive, total_seconds}
use async_energy_controller.Value.Double.{add, multiply, divide_by}
use async_energy_controller.Profiler.{integrate_power_wh}
use async_energy_controller.Profiler.Nvml.{Driver, is_active, decode_throttle}
use async_energy_controller.Profiler.Sampler.{
  Tick, new_sampler, sample_loop, start, stop, sample_of,
}
use async_energy_controller.Profiler.Threads.{
  Machine, checking, collecting, waiting, checks, collects, other, turns, signals, starts,
  starts_late, new_machine, IsReachable, created, next, own, others, IsOwn, IsReachable-IsOwn,
}
use async_energy_controller.Profiler.Telemetry.{IsTelemetry, stop-IsTelemetry}

abbrev at : ℕ → DateTime
at us = record { clock = pos us; offset = some (pos 0) }

-- 120 W.
abbrev watts : Value
watts = float (finite (pos (120 * 2 ^ 1074)))

abbrev tick_at : ℕ → Tick
tick_at us = record { gpu = some (field "power_w" watts end); rapl = none; clock = at us }

abbrev minute : List Tick
minute = tick_at 0 ∷ tick_at 30_000_000 ∷ tick_at 60_000_000 ∷ []

-- A minute at 120 W is 2 Wh.
two_wh :
    integrate_power_wh (sample_of (tick_at 0) ∷ sample_of (tick_at 60_000_000) ∷ [])
    ≡ some (finite (pos (2 ^ 1075)))
unfolding integrate_power_wh sample_of instant ◌-ℤ◌ ◌+ℤ◌ get is_positive add multiply total_seconds
    divide_by
two_wh = refl

stop-IsTelemetry_example :
    IsTelemetry minute 5 60_000_005
      (stop none 60_000_005 none [] (sample_loop minute (start "run" 5 none new_sampler)))
stop-IsTelemetry_example = stop-IsTelemetry new_sampler minute "run" none 5 60_000_005 none none []

-- The idle bit is known under its name, and no other.
abbrev old_driver : Driver
old_driver = record {
  power_mw = none;
  utilization = none;
  memory_used = none;
  temperature = none;
  sm_clock = none;
  mem_clock = none;
  fan_speed = none;
  perf_state = none;
  has_throttle_fn = true;
  throttle = some 65;
  energy_mj = none;
  bit = λ name. if str_eq name "nvmlClocksThrottleReasonGpuIdle" then some 1 else none;
}

abbrev hex : ℕ → String
hex n = "0x"

-- The bits 0x41: idle, and a thermal slowdown that the library has no name for.
idle_hides : decode_throttle hex old_driver 65 ≡ "gpuidle"
unfolding decode_throttle is_active
idle_hides = refl

-- The thread of the first run is still in its reading when the second run starts, and its sample goes into
-- the list of the second run.
abbrev raced : Machine
raced = record {
  run = 2;
  is_set = false;
  threads = (2, checking) ∷ (1, waiting) ∷ [];
  samples = 1 ∷ [];
  late = 1;
}

abbrev sampling : Machine
sampling = record {
  run = 1;
  is_set = false;
  threads = (1, collecting) ∷ [];
  samples = [];
  late = 0;
}

raced-IsReachable : IsReachable raced
raced-IsReachable =
    let first = next created (starts new_machine refl) in
    let reading : IsReachable sampling = next first (turns _ (checks refl)) in
    let told = next reading (signals sampling) in
    let second = next told (starts_late (record sampling { is_set = true }) (omega arith)) in
    next second (turns _ (other collects))

IsReachable-IsOwn_example : (own 2 raced.threads ≤ 1) × (others 2 raced.threads ≤ 1) × IsOwn raced
IsReachable-IsOwn_example = IsReachable-IsOwn raced raced-IsReachable
