-- ===== src/Bench/Thermal.antt =====
-- `hmasync_controller/bench/thermal.py`: the pause of the item loop while the hardware protects
-- itself. A time is a whole number of microseconds. The clock, the sampler and the sleep are the
-- interface `ThermalWorld`.
pub mod Trailing
pub mod Pause
pub mod Examples
use async_energy_controller.Base.{
  ℕ, zero, suc, ◌+◌, ◌-◌, ◌/◌, ◌%◌, Bool, true, false, ◌||◌, Option, none, some, List, [], ◌∷◌, ltb,
  leb, ◌==◌, if◌then◌else◌, reversed,
}
use async_energy_controller.Base.Int.{ℤ, pos, ◌-ℤ◌, leb_ℤ, eqb_ℤ}

-- The fields of `TelemetrySample` that the guard reads.
pub record Sample : Type 0 where
  pub ts : ℕ
  pub gpu_throttle_reasons : Option ℕ
  pub cpu_speed_limit_pct : Option ℕ

-- `reasons & THROTTLE_HW_THERMAL`, the bit 0x40.
abbrev pub has_hw_thermal : Option ℕ → Bool
has_hw_thermal none = false
has_hw_thermal (some reasons) = reasons / 64 % 2 == 1

abbrev pub is_slowed : Option ℕ → Bool
is_slowed none = false
is_slowed (some pct) = ltb pct 100

unfoldable pub hw_throttled : Sample → Bool
hw_throttled sample =
    has_hw_thermal sample.gpu_throttle_reasons || is_slowed sample.cpu_speed_limit_pct

-- The loop over the reversed samples, from the `run_start_ts` so far.
unfoldable pub run_start : ℕ → List Sample → ℕ
run_start run_start_ts [] = run_start_ts
run_start run_start_ts (sample ∷ samples) =
    let rest = run_start sample.ts samples in if hw_throttled sample then rest else run_start_ts

-- On the reversed samples: the first is `samples[-1]`.
unfoldable pub trailing_time : List Sample → ℤ
unfolding run_start
trailing_time [] = pos 0
trailing_time (last ∷ samples) =
    if hw_throttled last then pos last.ts -ℤ pos (run_start last.ts (last ∷ samples)) else pos 0

unfoldable pub consecutive_hw_thermal : List Sample → ℤ
unfolding trailing_time
consecutive_hw_thermal samples = trailing_time (reversed samples)

abbrev pub hw_thermal_sustained : ℕ
hw_thermal_sustained = 10_000_000

abbrev pub thermal_pause_poll : ℕ
thermal_pause_poll = 5_000_000

abbrev pub thermal_pause_timeout : ℕ
thermal_pause_timeout = 300_000_000

pub record ThermalWorld (E : Type 0) : Type 0 where
  pub monotonic : E → ℕ × E
  pub get_samples : E → List Sample × E
  pub sleep : ℕ → E → E

-- `aborted` is the `SustainedThermalThrottleError`, by the time that it states.
pub data Reaction : Type 0 where
  untouched resumed : Reaction
  aborted : ℕ → Reaction

-- An argument, or where it is `None` the constant of the module.
abbrev pub or_constant : Option ℕ → ℕ → ℕ
or_constant none constant = constant
or_constant (some n) constant = n

module _ {E : Type 0} (world : ThermalWorld E) where
  open world use {monotonic, get_samples, sleep}

  -- The `while True`, for at most `fuel` rounds.
  unfoldable pub pause : ℕ → ℕ → ℕ → ℕ → E → Option (Reaction × E)
  pause zero poll_interval timeout pause_start e = none
  pause (suc fuel) poll_interval timeout pause_start e =
      let (now, e') = monotonic e in
      let (samples, e'') = get_samples (sleep poll_interval e') in
      let rest = pause fuel poll_interval timeout pause_start e'' in
      if leb (pause_start + timeout) now
      then some (aborted (now - pause_start), e')
      else if eqb_ℤ (consecutive_hw_thermal samples) (pos 0)
      then some (resumed, e'')
      else rest

  unfoldable pub maybe_pause_for_thermal_throttle :
      ℕ → Option ℕ → Option ℕ → Option ℕ → E → Option (Reaction × E)
  unfolding pause consecutive_hw_thermal
  maybe_pause_for_thermal_throttle fuel sustained_threshold poll_interval timeout e =
      let (samples, e') = get_samples e in
      let (pause_start, e'') = monotonic e' in
      if leb_ℤ (consecutive_hw_thermal samples)
        (pos (or_constant sustained_threshold hw_thermal_sustained))
      then some (untouched, e')
      else pause fuel (or_constant poll_interval thermal_pause_poll)
          (or_constant timeout thermal_pause_timeout) pause_start e''
