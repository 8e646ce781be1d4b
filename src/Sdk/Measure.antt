-- ===== src/Sdk/Measure.antt =====
-- `AsyncEnergy.measure` and `_report` of `hmasync_controller/sdk.py`. What the measuring calls (the
-- profiler, the caller's block, the API client and the clocks) is a `Surroundings` that answers each
-- call from the calls made so far, latest first. Times of the monotonic clock are in microseconds.
-- That clock never runs back, so a difference of its readings is not below 0. Logging has no model.
use async_energy_controller.Base.{
  map, ℕ, ◌-◌, String, Bool, not, Option, none, some, List, [], ◌∷◌, str_eq, if◌then◌else◌,
}
use async_energy_controller.Value.{
  DateTime, Value, null, float, str, datetime, Items, items_of, Fields, end, field, get, put,
  has_key, truthy, dict,
}
use async_energy_controller.Value.Number.{total_seconds}
use async_energy_controller.Api.Response.{ApiResult, server_run_id}
use async_energy_controller.Executor.Run.{update}
use async_energy_controller.Sdk.Window.{get_or}
use async_energy_controller.Profiler.{RunTelemetry, to_record_fields}

pub data Event : Type 0 where
  started stopped : (run_id : String) → Event
  worked : (handle : Fields) → Event
  pushed_run : (entry : Fields) → Event
  pushed_samples : (run_id : Value) → (samples : Items) → Event

-- How the block leaves the handle, and whether it raises.
pub record Block : Type 0 where
  pub handle : Fields
  pub raises : Bool

-- A `none` of `stop` is an exception, and so is a `false` of `start`.
pub record Surroundings : Type 0 where
  pub start : List Event → Bool
  pub block : List Event → Block
  pub stop : List Event → Option RunTelemetry
  pub push_run : List Event → ApiResult
  pub utc : List Event → DateTime
  pub monotonic : List Event → ℕ
  pub uuid : String

-- How `measure` ends: by an exception of `profiler.start`, by itself, by the exception of the block,
-- or by the `KeyError` of a handle without its run id.
pub data Ending : Type 0 where
  not_started finished reraised lost_run_id : Ending

unfoldable pub new_handle : String → Value → Value → Fields
new_handle run_id workflow_id fingerprint = field "run_id" (str run_id) (
    field "workflow_id" workflow_id (
      field "fingerprint" fingerprint (
        field "work_units" null
          (field "work_unit_kind" null (field "exit_status" (str "success") end)))))

unfoldable pub run_entry : String → Fields → DateTime → ℕ → Fields
unfolding get_or
run_entry controller_id handle started_at duration = field "run_id" (get "run_id" handle) (
    field "controller_id" (str controller_id) (
      field "workflow_id" (get "workflow_id" handle) (
        field "fingerprint" (get "fingerprint" handle) (
          field "ts" (datetime started_at) (
            field "duration_s" (float (total_seconds duration)) (
              field "exit_status" (get_or "exit_status" (str "success") handle) (
                field "work_units" (get "work_units" handle)
                  (field "work_unit_kind" (get "work_unit_kind" handle) end))))))))

-- The record and the samples, with the telemetry if there is any.
unfoldable pub with_telemetry : Option RunTelemetry → Fields → Fields × List Value
unfolding update to_record_fields
with_telemetry none entry = (entry, [])
with_telemetry (some telemetry) entry =
    (update entry (to_record_fields telemetry), map dict telemetry.samples)

-- The push of the trace, under the id that the API gave.
unfoldable pub push_trace : ApiResult → List Value → List Event → List Event
push_trace result [] events = events
push_trace result (s ∷ samples) events =
    let sid = server_run_id result in
    if truthy sid then pushed_samples sid (items_of (s ∷ samples)) ∷ events else events

-- The `except` clause: the handle says that the run failed.
unfoldable pub settle : Block → Fields × Ending
unfolding put
settle block =
    if block.raises
    then (put "exit_status" (str "failed") block.handle, reraised)
    else (block.handle, finished)

abbrev pub id_or : Option String → String → String
id_or none uuid = uuid
id_or (some s) uuid = if str_eq s "" then uuid else s

module _ (around : Surroundings) where
  -- `none` is the `KeyError`.
  unfoldable pub report :
      String → Fields → DateTime → ℕ → Option RunTelemetry → List Event → Option (List Event)
  unfolding run_entry with_telemetry push_trace
  report controller_id handle started_at duration telemetry events =
      let (entry, samples) =
        with_telemetry telemetry (run_entry controller_id handle started_at duration) in
      let pushed = pushed_run entry ∷ events in
      let result = around.push_run pushed in
      if not (has_key "run_id" handle)
      then none
      else if not result.ok
      then some pushed
      else some (push_trace result samples pushed)

  -- The `finally` clause, where the block ended by `ending`.
  unfoldable pub finish :
      String → Bool → String → DateTime → ℕ → Fields → Ending → List Event → Ending × List Event
  unfolding report
  finish controller_id reports run_id started_at monotonic_start handle ending events =
      let events' = stopped run_id ∷ events in
      let duration = around.monotonic events' - monotonic_start in
      let reported =
        report controller_id handle started_at duration (around.stop events') events' in
      if not reports
      then (ending, events')
      else elim reported [ none ↦ (lost_run_id, events') | some events'' ↦ (ending, events'') ]

  unfoldable pub measure :
      String → Value → Value → Option String → Bool → List Event → Ending × List Event
  unfolding new_handle finish settle
  measure controller_id workflow_id fingerprint given reports events =
      let run_id = id_or given around.uuid in
      let handle = new_handle run_id workflow_id fingerprint in
      let begun = started run_id ∷ events in
      let working = worked handle ∷ begun in
      let (handle', ending) = settle (around.block working) in
      if not (around.start begun)
      then (not_started, begun)
      else finish controller_id reports run_id (around.utc events) (around.monotonic events) handle'
          ending working
