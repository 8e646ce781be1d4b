-- ===== src/Sdk/Reported.antt =====
-- What `AsyncEnergy.measure` of `hmasync_controller/sdk.py` does around a block of work.
use async_energy_controller.Base.{
  if_ind, Bool-cases, ℕ, String, ◌≡◌, refl, inl, inr, true, false, not, Option, none, some, List,
  [], ◌∷◌, ◌++◌, str_eq, if_elim, if◌then◌else◌, arith, ◌∙◌, ◌-◌,
}
use async_energy_controller.Value.{
  Value, str, Items, items_of, Fields, end, field, get, put, has_key, truthy, DateTime,
}
use async_energy_controller.Value.Dict.{get-put, get-put_other, has_key-put_other, has_key-put}
use async_energy_controller.Api.Response.{ApiResult, server_run_id}
use async_energy_controller.Executor.Run.{update}
use async_energy_controller.Profiler.{RunTelemetry, to_record_fields}
use async_energy_controller.Profiler.Telemetry.{to_record_fields-exit_status}
use async_energy_controller.Sdk.Window.{get_or}
use async_energy_controller.Sdk.Measure.{
  Event, started, stopped, worked, pushed_run, pushed_samples, Block, Surroundings, Ending,
  finished, reraised, new_handle, run_entry, with_telemetry, push_trace, report, finish, settle,
  id_or, measure,
}

get-update :
    (k : String) (more fs : Fields) → has_key k more ≡ false → get k (update fs more) ≡ get k fs
unfolding update has_key
get-update k end fs h = refl
get-update k (field j v more) fs h =
    let other : str_eq j k ≡ false = ground arith in
    let behind : has_key k more ≡ false = ground arith in
    get-update k more (put j v fs) behind ∙ get-put_other k j v fs other

-- The status in the record that is sent.
get-with_telemetry :
    (telemetry : Option RunTelemetry) (entry : Fields)
    → get "exit_status" (with_telemetry telemetry entry).0 ≡ get "exit_status" entry
unfolding with_telemetry
get-with_telemetry none entry = refl
get-with_telemetry (some telemetry) entry =
    get-update "exit_status" (to_record_fields telemetry) entry
      (to_record_fields-exit_status telemetry)

abbrev failed : Value
failed = str "failed"

-- What the block says of its run.
unfoldable pub status_of : Block → Value
status_of block = if block.raises then failed else get_or "exit_status" (str "success") block.handle

settled-status :
    (block : Block) → get_or "exit_status" (str "success") (settle block).0 ≡ status_of block
unfolding settle status_of get_or
settled-status block = elim (Bool-cases block.raises) [
  | inl e ↦ rw e (
      rw (has_key-put "exit_status" failed block.handle)
        (get-put "exit_status" failed block.handle))
  | inr e ↦ rw e refl
]

settled-has_key :
    (block : Block)
    → has_key "run_id" block.handle ≡ true
    → has_key "run_id" (settle block).0 ≡ true
unfolding settle
settled-has_key block h =
    if_elim (λ (r : Fields × Ending). has_key "run_id" r.0 ≡ true) block.raises
      (put "exit_status" failed block.handle, reraised) (block.handle, finished)
      (λ e. has_key-put_other "run_id" "exit_status" failed block.handle refl ∙ h) (λ e. h)

-- Nothing, or one trace.
pub data IsTrace : List Event → Type 0 where
  no_trace : IsTrace []
  one_trace : (sid : Value) (samples : Items) → IsTrace (pushed_samples sid samples ∷ [])

-- `events` with a trace sent after them, or nothing.
abbrev Traced : List Event → List Event → Type 0
Traced events r = (later : List Event) × (r ≡ later ++ events) × IsTrace later

push_trace-Traced :
    (result : ApiResult) (samples : List Value) (events : List Event)
    → Traced events (push_trace result samples events)
unfolding push_trace
push_trace-Traced result [] events = ([], refl, no_trace)
push_trace-Traced result (s ∷ samples) events =
    let sid = server_run_id result in
    let trace = items_of (s ∷ samples) in
    if_ind (Traced events) (truthy sid) (pushed_samples sid trace ∷ events) events
      (pushed_samples sid trace ∷ [], refl, one_trace sid trace) ([], refl, no_trace)

abbrev Sent : List Event → Option (List Event) → Type 0
Sent pushed o = (r : List Event) × (o ≡ some r) × Traced pushed r

-- The calls around a block, latest first.
abbrev pub bracket : String → Fields → List Event → List Event
bracket run_id handle before = stopped run_id ∷ worked handle ∷ started run_id ∷ before

-- What comes of a measured block: the ending, the calls in their order, the record that was sent, and
-- what was sent after it.
pub record IsMeasured (run_id : String) (handle : Fields) (block : Block) (before : List Event)
    (r : Ending × List Event) : Type 0 where
  pub ending : r.0 ≡ (if block.raises then reraised else finished)
  pub entry : Fields
  pub later : List Event
  pub calls : r.1 ≡ later ++ pushed_run entry ∷ bracket run_id handle before
  pub status : get "exit_status" entry ≡ status_of block
  pub trace : IsTrace later

module _ (around : Surroundings) where
  report-Sent :
      (controller_id : String) (handle : Fields) (started_at : DateTime) (duration : ℕ)
      (telemetry : Option RunTelemetry) (events : List Event)
      → has_key "run_id" handle ≡ true
      → Sent
          (pushed_run
              (with_telemetry telemetry (run_entry controller_id handle started_at duration)).0
            ∷ events)
          (report around controller_id handle started_at duration telemetry events)
  unfolding report
  report-Sent controller_id handle started_at duration telemetry events h =
      let full = with_telemetry telemetry (run_entry controller_id handle started_at duration) in
      let pushed = pushed_run full.0 ∷ events in
      let result = around.push_run pushed in
      let traced = push_trace result full.1 pushed in
      rw h (
        if_ind (Sent pushed) (not result.ok) (some pushed) (some traced)
          (pushed, refl, ([], refl, no_trace))
          (traced, refl, push_trace-Traced result full.1 pushed))

  entry-status :
      (controller_id : String) (handle : Fields) (started_at : DateTime) (duration : ℕ)
      (telemetry : Option RunTelemetry)
      → get "exit_status"
          (with_telemetry telemetry (run_entry controller_id handle started_at duration)).0
        ≡ get_or "exit_status" (str "success") handle
  unfolding run_entry get
  entry-status controller_id handle started_at duration telemetry =
      get-with_telemetry telemetry (run_entry controller_id handle started_at duration)

  finish-reported :
      (controller_id run_id : String) (started_at : DateTime) (begun : ℕ) (handle : Fields)
      (ending : Ending) (events r : List Event)
      → report around controller_id handle started_at
          (around.monotonic (stopped run_id ∷ events) - begun)
          (around.stop (stopped run_id ∷ events))
          (stopped run_id ∷ events)
        ≡ some r
      → finish around controller_id true run_id started_at begun handle ending events ≡ (ending, r)
  unfolding finish
  finish-reported controller_id run_id started_at begun handle ending events r h = rw h refl

  settled-ending :
      (block : Block) → (settle block).1 ≡ (if block.raises then reraised else finished)
  unfolding settle
  settled-ending block = elim (Bool-cases block.raises) [ inl e ↦ rw e refl | inr e ↦ rw e refl ]

  -- Where the profiler starts, a block that leaves the run id in its handle ends as it would alone: by
  -- its own exception, or by none, whatever the profiler and the API do afterwards. It is run once,
  -- after the start of the profiler and before its stop. With `report` on, one record is then sent, which
  -- says "failed" if the block raised and else what the handle says, and after it at most one trace; with
  -- `report` off, nothing is sent.
  pub measure-IsMeasured :
      (controller_id : String) (workflow_id fingerprint : Value) (given : Option String)
      (before : List Event)
      → let run_id = id_or given around.uuid in
        let handle = new_handle run_id workflow_id fingerprint in
        let block = around.block (worked handle ∷ started run_id ∷ before) in
        around.start (started run_id ∷ before) ≡ true
        → has_key "run_id" block.handle ≡ true
        → IsMeasured run_id handle block before
            (measure around controller_id workflow_id fingerprint given true before)
          × (measure around controller_id workflow_id fingerprint given false before
              ≡ (if block.raises then reraised else finished, bracket run_id handle before))
  unfolding measure
  measure-IsMeasured controller_id workflow_id fingerprint given before up kept =
      let run_id = id_or given around.uuid in
      let handle = new_handle run_id workflow_id fingerprint in
      let working = worked handle ∷ started run_id ∷ before in
      let block = around.block working in
      let handle' = (settle block).0 in
      let events = bracket run_id handle before in
      let telemetry = around.stop events in
      let duration = around.monotonic events - around.monotonic before in
      let full =
        with_telemetry telemetry (run_entry controller_id handle' (around.utc before) duration) in
      let (r, sent, (later, calls, trace)) =
        report-Sent controller_id handle' (around.utc before) duration telemetry events
          (settled-has_key block kept) in
      let done =
        finish-reported controller_id run_id (around.utc before) (around.monotonic before) handle'
          (settle block).1 working r sent in
      (
        rw (up, done)
            (record {
              ending = settled-ending block;
              entry = full.0;
              later = later;
              calls = calls;
              status =
                  entry-status controller_id handle' (around.utc before) duration telemetry
                  ∙ settled-status block;
              trace = trace;
            }),
        rw (up, measure, finish, settled-ending block) refl,
      )
