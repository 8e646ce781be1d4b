-- ===== src/Sdk/Examples.antt =====
-- Runs of the library for callers with a process of their own.
use async_energy_controller.Base.{String, ◌≡◌, refl, true, false, none, some, []}
use async_energy_controller.Base.Int.{pos, ◌-ℤ◌}
use async_energy_controller.Value.{DateTime, null, str, end, has_key}
use async_energy_controller.Api.Response.{ApiResult}
use async_energy_controller.Executor.Schedule.{instant}
use async_energy_controller.Samples.{texts, accepted}
use async_energy_controller.Sdk.{Arguments, new_async_energy}
use async_energy_controller.Sdk.Window.{Window, answered, crashed, Waited, wait, until_start}
use async_energy_controller.Base.{if◌then◌else◌}
use async_energy_controller.Base.Int.{ℤ}
use async_energy_controller.Sdk.Waits.{IsWait, wait-IsWait}
use async_energy_controller.Sdk.Measure.{
  reraised, finished, Block, Surroundings, new_handle, measure,
}
use async_energy_controller.Sdk.Reported.{bracket, IsMeasured, measure-IsMeasured}
use async_energy_controller.Profiler.{RunTelemetry}
use async_energy_controller.Profiler.Sampler.{duration_only}

abbrev no_arguments : Arguments
no_arguments = record {
  api_key = "";
  api_url = "";
  email = "";
  password = "";
  controller_id = "";
  given = none;
}

abbrev key_in : String → String
key_in name = "key"

no_credentials : new_async_energy (λ name. "") none no_arguments ≡ none
unfolding new_async_energy
no_credentials = refl

abbrev at : DateTime
at = record { clock = pos 5_000_000; offset = some (pos 0) }

abbrev later : DateTime
later = record { clock = pos 65_000_000; offset = some (pos 0) }

abbrev window : Window
window = record {
  start = some later;
  finish = none;
  grid_cost = null;
  now_cost = null;
  savings = null;
  predicted_wh = null;
  feasible = true;
  reason = null;
  prediction_method = str "prior";
  degraded = false;
  raw = end;
}

waits :
    wait texts (some (pos 7)) window at ≡ answered (record { delay = pos 7; slept = some (pos 7) })
unfolding wait until_start instant ◌-ℤ◌
waits = refl

wait-IsWait_example :
    ((offset : ℤ)
      → later.offset ≡ some offset
      → (w : Waited) × (wait texts none window at ≡ answered w)
        × IsWait (instant later) (instant at) none w)
    × (later.offset ≡ none → wait texts none window at ≡ crashed)
wait-IsWait_example = wait-IsWait texts none window later at refl refl

abbrev ok_result : ApiResult
ok_result = record {
  ok = true;
  status_code = some 201;
  content = accepted;
  error = null;
  transport_error = false;
}

abbrev telemetry : RunTelemetry
telemetry = duration_only "run" []

-- A block that raises.
abbrev block : Block
block = record { handle = new_handle "run" null null; raises = true }

abbrev around : Surroundings
around = record {
  start = λ events. true;
  block = λ events. block;
  stop = λ events. some telemetry;
  push_run = λ events. ok_result;
  utc = λ events. at;
  monotonic = λ events. 3;
  uuid = "uuid";
}

measure-IsMeasured_example :
    IsMeasured "run"
      (new_handle "run" null null)
      block
      []
      (measure around "box" null null (some "run") true [])
    × (measure around "box" null null (some "run") false [] ≡ (
      if block.raises then reraised else finished,
      bracket "run" (new_handle "run" null null) [],
    ))
unfolding new_handle has_key
measure-IsMeasured_example = measure-IsMeasured around "box" null null (some "run") [] refl refl
