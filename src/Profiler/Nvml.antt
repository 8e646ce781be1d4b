-- ===== src/Profiler/Nvml.antt =====
-- What `hmasync_controller/nvml_reader.py` and `NVMLProfiler` of `hmasync_controller/profiler.py` read from
-- NVML. The driver is the record `Driver` of what its functions give: `none` is any exception, and what
-- it gives is a whole number that is not negative.
use async_energy_controller.Base.{
  ℕ, ◌/◌, ◌%◌, ◌*◌, ◌≡◌, refl, String, Bool, false, not, ◌&&◌, Option, none, some, List, [], ◌∷◌,
  ◌++◌, ◌==◌, is_some, if◌then◌else◌, true, ap,
}
use async_energy_controller.Value.{Float, Value, null, float, str, Fields, end, field, join}
use async_energy_controller.Value.Double.{true_quotient}

pub record Driver : Type 0 where
  pub power_mw : Option ℕ
  -- Of the card, and of its memory.
  pub utilization : Option (ℕ × ℕ)
  pub memory_used : Option ℕ
  pub temperature : Option ℕ
  pub sm_clock : Option ℕ
  pub mem_clock : Option ℕ
  pub fan_speed : Option ℕ
  pub perf_state : Option ℕ
  -- Whether either name of the getter is there, and what it gives.
  pub has_throttle_fn : Bool
  pub throttle : Option ℕ
  pub energy_mj : Option ℕ
  -- The bit under a name, or `none` where this version of the library has no such name.
  pub bit : String → Option ℕ

-- `float(n)`.
abbrev pub float_of : ℕ → Value
float_of n = float (true_quotient n 1)

abbrev pub quotient_value : Option ℕ → ℕ → Value
quotient_value none d = null
quotient_value (some n) d = float (true_quotient n d)

abbrev pub first_of : Option (ℕ × ℕ) → Option ℕ
first_of none = none
first_of (some p) = some p.0

abbrev pub second_of : Option (ℕ × ℕ) → Option ℕ
second_of none = none
second_of (some p) = some p.1

-- The channels of one tick.
pub record Channels : Type 0 where
  pub power_w : Value
  pub util_gpu : Value
  pub util_mem : Value
  pub mem_used_mib : Value
  pub temp_c : Value
  pub sm_clock_mhz : Value
  pub mem_clock_mhz : Value
  pub fan_pct : Value
  pub perf_state : Option ℕ
  pub throttle_mask : Option ℕ

unfoldable pub read_nvml_channels : Driver → Channels
unfolding true_quotient
read_nvml_channels nvml = record {
  power_w = quotient_value nvml.power_mw 1000;
  util_gpu = quotient_value (first_of nvml.utilization) 1;
  util_mem = quotient_value (second_of nvml.utilization) 1;
  mem_used_mib = quotient_value nvml.memory_used (1024 * 1024);
  temp_c = quotient_value nvml.temperature 1;
  sm_clock_mhz = quotient_value nvml.sm_clock 1;
  mem_clock_mhz = quotient_value nvml.mem_clock 1;
  fan_pct = quotient_value nvml.fan_speed 1;
  perf_state = nvml.perf_state;
  throttle_mask = if nvml.has_throttle_fn then nvml.throttle else none;
}

-- `mask & bit`, for a bit that is one power of two, as NVML's are.
abbrev pub has_bit : ℕ → ℕ → Bool
has_bit mask bit = mask / bit % 2 == 1

abbrev pub throttle_bits : List (String × String)
throttle_bits =
    ("nvmlClocksThrottleReasonGpuIdle", "gpuidle")
    ∷ ("nvmlClocksThrottleReasonApplicationsClocksSetting", "applications_clocks")
    ∷ ("nvmlClocksThrottleReasonSwPowerCap", "sw_power_cap")
    ∷ ("nvmlClocksThrottleReasonHwSlowdown", "hw_slowdown")
    ∷ ("nvmlClocksThrottleReasonSyncBoost", "sync_boost")
    ∷ ("nvmlClocksThrottleReasonSwThermalSlowdown", "sw_thermal")
    ∷ ("nvmlClocksThrottleReasonHwThermalSlowdown", "hw_thermal")
    ∷ ("nvmlClocksThrottleReasonHwPowerBrakeSlowdown", "hw_power_brake")
    ∷ ("nvmlClocksThrottleReasonDisplayClockSetting", "display_clock")
    ∷ []

-- Whether the library knows a bit by this name and the mask has it.
unfoldable pub is_active : Driver → ℕ → String → Bool
is_active nvml mask attr = elim (nvml.bit attr) [
  | none ↦ false
  | some bit ↦ not (bit == 0) && has_bit mask bit
]

unfoldable pub active_names : Driver → ℕ → List (String × String) → List String
unfolding is_active
active_names nvml mask [] = []
active_names nvml mask ((attr, name) ∷ bits) =
    let rest = active_names nvml mask bits in if is_active nvml mask attr then name ∷ rest else rest

abbrev pub name_mask : (ℕ → String) → ℕ → List String → String
name_mask hex mask [] = hex mask
name_mask hex mask (n ∷ ns) = join "," (n ∷ ns)

-- `hex` is what `f"0x{mask:x}"` gives.
unfoldable pub decode_throttle : (ℕ → String) → Driver → ℕ → String
unfolding active_names join
decode_throttle hex nvml mask =
    if mask == 0 then "none" else name_mask hex mask (active_names nvml mask throttle_bits)

-- `NVMLProfiler._read_gpu_sample`.
unfoldable pub nvml_sample : (ℕ → String) → Driver → Fields
unfolding read_nvml_channels decode_throttle
nvml_sample hex nvml =
    let ch = read_nvml_channels nvml in
    field "power_w" ch.power_w (
      field "util_gpu" ch.util_gpu (
        field "util_mem" ch.util_mem (
          field "mem_used_mb" ch.mem_used_mib (
            field "temp_c" ch.temp_c (
              field "sm_clock_mhz" ch.sm_clock_mhz (
                field "throttle_reasons"
                  (elim ch.throttle_mask [
                    | none ↦ null
                    | some mask ↦ str (decode_throttle hex nvml mask)
                  ])
                  end))))))

-- `NVMLProfiler.capabilities`, with the reading of the RAPL counter.
unfoldable pub nvml_capabilities : Driver → Option Float → List String
nvml_capabilities nvml rapl =
    let given = λ (name : String) (there : Bool). if there then name ∷ [] else [] in
    given "power" (is_some nvml.power_mw)
    ++ given "util" (is_some nvml.utilization)
    ++ given "memory" (is_some nvml.memory_used)
    ++ given "temp" (is_some nvml.temperature)
    ++ given "clocks" (is_some nvml.sm_clock)
    ++ given "energy_counter" (is_some nvml.energy_mj)
    ++ given "throttle" (nvml.has_throttle_fn && is_some nvml.throttle)
    ++ given "cpu_rapl" (is_some rapl)

-- The names after the first, none of which is active.
abbrev Quiet : Driver → ℕ → List (String × String) → Type 0
Quiet nvml mask [] = Unit
Quiet nvml mask ((attr, name) ∷ bits) = (is_active nvml mask attr ≡ false) × Quiet nvml mask bits

Quiet-active_names :
    (nvml : Driver) (mask : ℕ) (bits : List (String × String))
    → Quiet nvml mask bits
    → active_names nvml mask bits ≡ []
unfolding active_names
Quiet-active_names nvml mask [] h = refl
Quiet-active_names nvml mask ((attr, name) ∷ bits) h =
    rw (active_names, h.0) (Quiet-active_names nvml mask bits h.1)

abbrev other_bits : List (String × String) → List (String × String)
other_bits [] = []
other_bits (b ∷ bits) = bits

-- A mask that has the idle bit, and of the bits that the library knows no other, decodes to "gpuidle",
-- whatever other bits it has.
decode_throttle-idle :
    (hex : ℕ → String) (nvml : Driver) (mask : ℕ)
    → (mask == 0) ≡ false
    → is_active nvml mask "nvmlClocksThrottleReasonGpuIdle" ≡ true
    → Quiet nvml mask (other_bits throttle_bits)
    → decode_throttle hex nvml mask ≡ "gpuidle"
unfolding decode_throttle join
decode_throttle-idle hex nvml mask h idle quiet =
    let names : active_names nvml mask throttle_bits ≡ "gpuidle" ∷ [] =
      rw (active_names, idle)
        (ap (λ (l : List String). "gpuidle" ∷ l)
          (Quiet-active_names nvml mask (other_bits throttle_bits) quiet)) in
    rw h (ap (name_mask hex mask) names)
