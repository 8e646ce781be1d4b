-- ===== src/Executor/Run.antt =====
-- Running one placement: `_execute`, `_bounded_request`, `_build_record` and the helpers of
-- `ScheduleExecutor` in `hmasync_controller/executor.py`, with `declared_timeout` of
-- `hmasync_controller/adapters.py`. What the executor calls (the API client, the reporter, the
-- profiler, the adapters and the power cap) is a `World` that answers each call from the calls
-- made so far, latest first. Logging has no model.
use Prim.Native.String.{◌++◌}
use async_energy_controller.Base.{
  ℕ, String, Bool, false, not, Option, none, some, List, ◌∷◌, str_eq, any, max, if◌then◌else◌,
}
use async_energy_controller.Base.Int.{ℤ, pos, pos_part, ◌-ℤ◌}
use async_energy_controller.Value.{
  Float, DateTime, Value, null, int, float, str, datetime, Fields, end, field, get, put, PyText,
}
use async_energy_controller.Value.Number.{float_of_int, is_positive, total_seconds}
use async_energy_controller.Api.Response.{ApiResult}
use async_energy_controller.Executor.Schedule.{instant, JobDef, JobEntry, Placement, ActiveSchedule}
use async_energy_controller.Executor.Select.{Key, resolve_job}

-- A call of the executor on one of its collaborators, with what it was given.
pub data Event : Type 0 where
  pulled : (after : ℤ) → Event
  drained_reports drained_bundles : Event
  provided : (framework : String) → Event
  preflighted fingerprinted : (framework : String) → (request : Fields) → Event
  acked : (version : ℤ) → (event : String) → Option String → DateTime → Event
  profiler_started profiler_stopped : (run_id : String) → Event
  cap_applied cap_restored : Event
  ran : (framework : String) → (request : Fields) → Event
  reported : (entry : Fields) → (samples : List Value) → Event

-- `AdapterRunResult`, as far as the executor reads it.
pub record RunResult : Type 0 where
  pub exit_status : String
  pub work_units : Value
  pub work_unit_kind : Value
  pub content : Value

-- What `adapter.run` comes to: a result, an `AdapterError`, or any other exception.
pub data RunOutcome : Type 0 where
  finished : RunResult → RunOutcome
  adapter_error crashed : String → RunOutcome

-- The record fields and the samples of `RunTelemetry`.
pub record Telemetry : Type 0 where
  pub record_fields : Fields
  pub samples : List Value

-- A `none` of `preflight`, `fingerprint`, `extra_drain` is an exception; `provide` gives the text
-- of an `AdapterError`. An exception of the profiler, the reporter or the pull is not caught and ends
-- the loop; here these return.
pub record World : Type 0 where
  pub pull : List Event → ApiResult
  pub drain : List Event → ℕ
  pub has_extra_drain : Bool
  pub extra_drain : List Event → Option ℕ
  pub provide : List Event → Option String
  pub preflight : List Event → Option Bool
  pub fingerprint : List Event → Option Value
  pub has_power_cap : Bool
  pub run : List Event → RunOutcome
  pub telemetry : List Event → Telemetry
  pub report_spooled : List Event → Bool
  pub run_id : List Event → String

pub record Executor : Type 0 where
  pub controller_id : String
  pub current : Option ActiveSchedule
  pub version : ℤ
  pub executed : List Key
  pub adapters : List String
  pub events : List Event

pub data OutcomeStatus : Type 0 where
  executed preflight_failed unknown_job unknown_framework : OutcomeStatus

pub record PlacementOutcome : Type 0 where
  pub workflow_id : Option String
  pub run_id : Option String
  pub status : OutcomeStatus
  pub exit_status : Option String
  pub spooled : Bool
  pub reason : Value

-- A fingerprint that raised is null.
abbrev pub or_null : Option Value → Value
or_null none = null
or_null (some v) = v

-- A call is added to the history.
abbrev pub emit : Event → Executor → Executor
emit event st = record st { events = event ∷ st.events }

-- `none`: no timeout is declared. The outer `none` is the `OverflowError` of `float(raw)`.
unfoldable pub declared_timeout : PyText → Fields → Option (Option Float)
declared_timeout texts request =
    let positive = λ (x : Float). if is_positive x then some x else none in
    elim (get "timeout" request) [
      | int n ↦ elim (float_of_int n) [ none ↦ none | some x ↦ some (positive x) ]
      | float x ↦ some (positive x)
      | str s ↦ elim (texts.parse_float s) [ none ↦ some none | some x ↦ some (positive x) ]
      | _ ↦ some none
    ]

abbrev pub min_window_timeout_us : ℕ
min_window_timeout_us = 60_000_000

-- The microseconds that a job may run, at least a minute.
unfoldable pub window_budget : JobDef → Placement → DateTime → Option ℕ
window_budget job p now =
    let budget = λ (limit : DateTime).
      some (max (pos_part (instant limit -ℤ instant now)) min_window_timeout_us) in
    elim p.end_time [
      | some limit ↦ budget limit
      | none ↦ elim job.deadline [ none ↦ none | some limit ↦ budget limit ]
    ]

abbrev pub with_timeout : ℕ → Fields → Option (Option Float) → Option Fields
with_timeout budget request none = none
with_timeout budget request (some none) =
    some (put "timeout" (float (total_seconds budget)) request)
with_timeout budget request (some (some x)) = some request

-- `none`: the `OverflowError` of a declared timeout.
unfoldable pub bounded_request : PyText → JobDef → Placement → DateTime → Option Fields
unfolding window_budget
bounded_request texts job p now = elim (window_budget job p now) [
  | none ↦ some job.request
  | some budget ↦ with_timeout budget job.request (declared_timeout texts job.request)
]

abbrev pub exit_success : String
exit_success = "success"

abbrev pub error_result : String → RunResult
error_result detail = record {
  exit_status = "error";
  work_units = null;
  work_unit_kind = null;
  content = str detail;
}

unfoldable pub result_of_run : RunOutcome → RunResult
result_of_run (finished r) = r
result_of_run (adapter_error detail) = error_result detail
result_of_run (crashed detail) = error_result ("adapter crashed: " ++ detail)

abbrev pub text_value : Option String → Value
text_value none = null
text_value (some s) = str s

abbrev pub time_value : Option DateTime → Value
time_value none = null
time_value (some t) = datetime t

-- `dict.update`.
unfoldable pub update : Fields → Fields → Fields
update fs end = fs
update fs (field k v more) = update (put k v fs) more

abbrev pub workflow_of : JobDef → Placement → Option String
workflow_of job p = elim job.workflow_id [
  | none ↦ p.workflow_id
  | some s ↦ if str_eq s "" then p.workflow_id else some s
]

unfoldable pub build_record :
    String → JobDef → Placement → String → Value → RunResult → DateTime → Telemetry → Fields
unfolding update
build_record controller_id job p run_id fingerprint result now telemetry =
    update
      (field "controller_id" (str controller_id) (
        field "run_id" (str run_id) (
          field "workflow_id" (text_value (workflow_of job p)) (
            field "fingerprint" fingerprint (
              field "framework" (str job.framework) (
                field "exit_status" (str result.exit_status) (
                  field "work_units" result.work_units (
                    field "work_unit_kind" result.work_unit_kind (
                      field "scheduled_start" (time_value p.start) (
                        field "actual_start" (datetime now)
                          (field "ts" (datetime now) end)))))))))))
      telemetry.record_fields

module _ (texts : PyText) (world : World) where
  -- `_adapter_for`: the provider is asked once for a framework. The text is that of its error.
  unfoldable pub adapter_for : String → Executor → Option String × Executor
  adapter_for framework st =
      let asked = emit (provided framework) st in
      if any (λ f. str_eq f framework) st.adapters
      then (none, st)
      else elim (world.provide asked.events) [
        | none ↦ (none, record asked { adapters = framework ∷ st.adapters })
        | some error ↦ (some error, asked)
      ]

  -- The power cap around a run, if one is wired.
  abbrev pub emit_cap : Event → Executor → Executor
  emit_cap event st = if world.has_power_cap then emit event st else st

  -- `adapter.run(self._bounded_request(…))`, with the handlers of its exceptions.
  unfoldable pub run_adapter : JobDef → Option Fields → Executor → RunResult × Executor
  unfolding result_of_run
  run_adapter job none st = (error_result "adapter crashed: int too large to convert to float", st)
  run_adapter job (some request) st =
      let st' = emit (ran job.framework request) st in (result_of_run (world.run st'.events), st')

  -- From the `started` ack on.
  unfoldable pub profile_and_run :
      JobDef → Placement → String → Value → ℤ → DateTime → Executor → PlacementOutcome × Executor
  unfolding run_adapter
  profile_and_run job p run_id fingerprint version now st =
      let st1 = emit (acked version "started" p.workflow_id now) st in
      let st2 = emit_cap cap_applied (emit (profiler_started run_id) st1) in
      let (result, st3) = run_adapter job (bounded_request texts job p now) st2 in
      let st4 = emit (profiler_stopped run_id) (emit_cap cap_restored st3) in
      let telemetry = world.telemetry st4.events in
      let entry = build_record st.controller_id job p run_id fingerprint result now telemetry in
      let st5 = emit (reported entry telemetry.samples) st4 in
      let succeeded = str_eq result.exit_status exit_success in
      let ack_event : String = if succeeded then "finished" else "failed" in
      (
        record {
          workflow_id = p.workflow_id;
          run_id = some run_id;
          status = executed;
          exit_status = some result.exit_status;
          spooled = world.report_spooled st5.events;
          reason = result.content;
        },
        emit (acked version ack_event p.workflow_id now) st5,
      )

  abbrev pub stopped : Placement → Option String → OutcomeStatus → Value → PlacementOutcome
  stopped p run_id status reason = record {
    workflow_id = p.workflow_id;
    run_id = run_id;
    status = status;
    exit_status = none;
    spooled = false;
    reason = reason;
  }

  -- From the creation of the run id on.
  unfoldable pub preflight_and_run :
      JobDef → Placement → ℤ → DateTime → Executor → PlacementOutcome × Executor
  unfolding profile_and_run
  preflight_and_run job p version now st =
      let run_id = world.run_id st.events in
      let checked = emit (preflighted job.framework job.request) st in
      let printed = emit (fingerprinted job.framework job.request) checked in
      let ready : Bool = elim (world.preflight checked.events) [ none ↦ false | some b ↦ b ] in
      let fingerprint = or_null (world.fingerprint printed.events) in
      if not ready
      then (
        stopped p (some run_id) preflight_failed (str "preflight failed"),
        emit (acked version "failed" p.workflow_id now) checked,
      )
      else profile_and_run job p run_id fingerprint version now printed

  abbrev pub version_of : Executor → ℤ
  version_of st = elim st.current [ none ↦ pos 0 | some s ↦ s.version ]

  -- With the answer of `_adapter_for`.
  unfoldable pub after_provision :
      JobDef
      → Placement
      → DateTime
      → Executor
      → Option String
      → Executor
      → PlacementOutcome × Executor
  unfolding preflight_and_run
  after_provision job p now st none st' = preflight_and_run job p (version_of st) now st'
  after_provision job p now st (some message) st' =
      (stopped p none unknown_framework (str message), st')

  -- With the job resolved.
  unfoldable pub execute_job :
      Option JobDef → Placement → DateTime → Executor → PlacementOutcome × Executor
  unfolding adapter_for after_provision
  execute_job none p now st = (stopped p none unknown_job (str "no local job definition"), st)
  execute_job (some job) p now st =
      let (error, st') = adapter_for job.framework st in after_provision job p now st error st'

  unfoldable pub execute :
      (Option String → JobEntry) → Placement → DateTime → Executor → PlacementOutcome × Executor
  unfolding execute_job
  execute job_source p now st = execute_job (resolve_job texts job_source p.workflow_id) p now st
