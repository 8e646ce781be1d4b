-- ===== src/Bench/Thermal/Examples.antt =====
-- Runs of the guard over a clock and a list of traces.
use async_energy_controller.Base.{ℕ, ◌+◌, ◌≤◌, ◌≡◌, refl, none, some, List, [], ◌∷◌, arith}
use async_energy_controller.Base.Int.{pos, ◌-ℤ◌}
use async_energy_controller.Bench.Thermal.{
  Sample, hw_throttled, consecutive_hw_thermal, ThermalWorld, Reaction, resumed, aborted,
  maybe_pause_for_thermal_throttle,
}
use async_energy_controller.Bench.Thermal.Pause.{Clocked, IsCalledFor, maybe_pause-Ends}

-- The clock, and the traces to come.
abbrev Box : Type 0
Box = ℕ × List (List Sample)

abbrev next_trace : Box → List Sample × Box
next_trace (t, []) = ([], (t, []))
next_trace (t, trace ∷ traces) = (trace, (t, traces))

abbrev box : ThermalWorld Box
box = record { monotonic = λ e. (e.0, e); get_samples = next_trace; sleep = λ d e. (e.0 + d, e.1) }

abbrev hot : ℕ → Sample
hot t = record { ts = t; gpu_throttle_reasons = some 68; cpu_speed_limit_pct = none }

abbrev cool : ℕ → Sample
cool t = record { ts = t; gpu_throttle_reasons = some 4; cpu_speed_limit_pct = some 100 }

abbrev long_run : List Sample
long_run = cool 0 ∷ hot 1_000_000 ∷ hot 6_000_000 ∷ hot 12_000_000 ∷ []

abbrev cooled : Box
cooled = (12_000_000, long_run ∷ long_run ∷ (cool 21_000_000 ∷ []) ∷ [])

abbrev stuck : Box
stuck = (12_000_000, long_run ∷ long_run ∷ long_run ∷ [])

next_trace-time : (e : Box) → e.0 ≤ (next_trace e).1.0
next_trace-time (t, []) = omega arith
next_trace-time (t, trace ∷ traces) = omega arith

box-Clocked : Clocked box (λ e. e.0)
box-Clocked = record {
  shows = λ e. refl;
  reads = λ e. omega arith;
  samples = next_trace-time;
  sleeps = λ d e. omega arith;
}

measured : consecutive_hw_thermal long_run ≡ pos 11_000_000
unfolding consecutive_hw_thermal hw_throttled ◌-ℤ◌
measured = refl

cools_down :
    maybe_pause_for_thermal_throttle box 61 none none none cooled ≡ some (resumed, (22_000_000, []))
unfolding maybe_pause_for_thermal_throttle hw_throttled ◌-ℤ◌
cools_down = refl

gives_up :
    maybe_pause_for_thermal_throttle box 4 none none (some 10_000_000) stuck
    ≡ some (aborted 10_000_000, (22_000_000, []))
unfolding maybe_pause_for_thermal_throttle hw_throttled ◌-ℤ◌
gives_up = refl

-- A run that has just begun again has lasted for no time yet, and ends the pause.
resumes_while_hot :
    maybe_pause_for_thermal_throttle box 61 none none none
      (0, long_run ∷ (cool 1 ∷ hot 2 ∷ []) ∷ [])
    ≡ some (resumed, (5_000_000, []))
unfolding maybe_pause_for_thermal_throttle hw_throttled ◌-ℤ◌
resumes_while_hot = refl

maybe_pause-Ends_example :
    (r : Reaction × Box) × (maybe_pause_for_thermal_throttle box 61 none none none cooled ≡ some r)
    × IsCalledFor box 10_000_000 300_000_000 r
maybe_pause-Ends_example =
    maybe_pause-Ends box (λ e. e.0) box-Clocked none none none 60 cooled (omega arith)
