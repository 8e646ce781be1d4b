-- ===== src/Profiler.antt =====
-- `hmasync_controller/profiler.py` and `hmasync_controller/nvml_reader.py`: the telemetry of a run. Here:
-- the summary of a trace. Nvml has what is read from the driver, Smi what is read from nvidia-smi, Sampler
-- the sampling of a run, Select the choice of a profiler. A sample is a dict; a clock reading of the
-- monotonic clock is a whole number of microseconds.
pub mod Nvml
pub mod Smi
pub mod Sampler
pub mod Threads
pub mod Telemetry
pub mod Examples
use async_energy_controller.Base.{
  ℕ, suc, ◌-◌, String, Bool, true, false, not, ◌||◌, Option, none, some, List, [], ◌∷◌, map, length,
  ltb, leb, if◌then◌else◌,
}
use async_energy_controller.Base.Int.{ℤ, pos, pos_part, ◌-ℤ◌, ltb_ℤ, leb_ℤ}
use async_energy_controller.Value.{
  Float, finite, DateTime, Value, null, float, str, datetime, Fields, end, field, get,
}
use async_energy_controller.Value.Number.{is_positive, total_seconds}
use async_energy_controller.Value.Double.{
  add, multiply, divide_by, is_less, zero_float, half, true_quotient,
}
use async_energy_controller.Executor.Schedule.{instant}

abbrev pub joules_per_wh : ℕ
joules_per_wh = 3600

abbrev pub mj_per_wh : ℕ
mj_per_wh = 3_600_000

-- A reading of a channel: a float, or none.
abbrev pub reading : Value → Option Float
reading (float x) = some x
reading _ = none

abbrev pub time_of : Value → Option DateTime
time_of (datetime t) = some t
time_of _ = none

-- The readings of a channel that are not null.
unfoldable pub non_null : List Value → List Float
non_null [] = []
non_null (v ∷ vs) = let rest = non_null vs in elim (reading v) [ none ↦ rest | some x ↦ x ∷ rest ]

unfoldable pub sum_from : Float → List Float → Float
sum_from acc [] = acc
sum_from acc (x ∷ xs) = sum_from (add acc x) xs

-- `max`: a later item counts only if it is greater.
unfoldable pub greatest : Float → List Float → Float
greatest best [] = best
greatest best (x ∷ xs) = greatest (if is_less best x then x else best) xs

abbrev pub average : List Float → Option Float
average [] = none
average (x ∷ xs) = some (divide_by (sum_from zero_float (x ∷ xs)) (length (x ∷ xs)))

abbrev pub peak : List Float → Option Float
peak [] = none
peak (x ∷ xs) = some (greatest x xs)

unfoldable pub avg_peak : List Value → Option Float × Option Float
unfolding non_null sum_from greatest
avg_peak values = let vals = non_null values in (average vals, peak vals)

unfoldable pub max_non_null : List Value → Option Float
unfolding non_null greatest
max_non_null values = peak (non_null values)

-- A point of the power trace.
pub record Point : Type 0 where
  pub at : DateTime
  pub power_w : Float

abbrev pub point_of : Option Float → Option DateTime → Option Point
point_of (some p) (some t) = some (record { at = t; power_w = p })
point_of _ _ = none

unfoldable pub points : List Fields → List Point
points [] = []
points (s ∷ samples) =
    let rest = points samples in
    elim (point_of (reading (get "power_w" s)) (time_of (get "ts" s))) [
      | none ↦ rest
      | some p ↦ p ∷ rest
    ]

-- The stable sort by the time.
unfoldable pub insert_point : Point → List Point → List Point
insert_point p [] = p ∷ []
insert_point p (q ∷ qs) =
    let rest = insert_point p qs in
    if leb_ℤ (instant p.at) (instant q.at) then p ∷ q ∷ qs else q ∷ rest

unfoldable pub sort_points : List Point → List Point
unfolding insert_point
sort_points [] = []
sort_points (p ∷ ps) = insert_point p (sort_points ps)

-- `0.5 * (p0 + p1) * dt`, for a step forward in time.
unfoldable pub add_step : Float → Point → Point → Float
add_step joules p q =
    let dt = instant q.at -ℤ instant p.at in
    if leb_ℤ dt (pos 0)
    then joules
    else add joules
        (multiply (multiply half (add p.power_w q.power_w)) (total_seconds (pos_part dt)))

-- The loop over neighbouring points.
unfoldable pub joules_from : Float → List Point → Float
unfolding add_step
joules_from joules [] = joules
joules_from joules (p ∷ []) = joules
joules_from joules (p ∷ q ∷ ps) = joules_from (add_step joules p q) (q ∷ ps)

abbrev pub is_nan : Float → Bool
is_nan Float.nan = true
is_nan _ = false

-- `joules <= 0` fails for no number too.
abbrev pub wh_of : Float → Option Float
wh_of joules =
    if is_positive joules || is_nan joules then some (divide_by joules joules_per_wh) else none

unfoldable pub integrate_power_wh : List Fields → Option Float
unfolding points sort_points joules_from
integrate_power_wh samples =
    let pts = points samples in
    if ltb (length pts) 2 then none else wh_of (joules_from zero_float (sort_points pts))

abbrev pub integrated_energy : Option Float → Option Float × Option String
integrated_energy none = (none, none)
integrated_energy (some wh) = (some wh, some "integrated")

-- The counter is a whole number of millijoules below 2 ^ 53.
unfoldable pub compute_energy : Option ℕ → Option ℕ → List Fields → Option Float × Option String
unfolding integrate_power_wh
compute_energy start_mj end_mj samples =
    let integrated = integrated_energy (integrate_power_wh samples) in
    elim start_mj [
      | none ↦ integrated
      | some start ↦ elim end_mj [
        | none ↦ integrated
        | some stop ↦
            if leb start stop
            then (some (true_quotient (stop - start) mj_per_wh), some "counter")
            else integrated
      ]
    ]

pub record RunTelemetry : Type 0 where
  pub run_id : String
  pub duration_s : Float
  pub samples : List Fields
  pub capabilities : List String
  pub energy_wh : Option Float
  pub energy_source : Option String
  pub avg_w : Option Float
  pub peak_w : Option Float
  pub gpu_mem_mb : Option Float

abbrev pub float_value : Option Float → Value
float_value none = null
float_value (some x) = float x

abbrev pub source_value : Option String → Value
source_value none = null
source_value (some s) = str s

unfoldable pub to_record_fields : RunTelemetry → Fields
to_record_fields t = field "duration_s" (float t.duration_s) (
    field "energy_wh" (float_value t.energy_wh) (
      field "energy_source" (source_value t.energy_source) (
        field "avg_w" (float_value t.avg_w) (
          field "peak_w" (float_value t.peak_w)
            (field "gpu_mem_mb" (float_value t.gpu_mem_mb) end)))))
