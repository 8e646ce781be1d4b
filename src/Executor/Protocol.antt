-- ===== src/Executor/Protocol.antt =====
-- The order of the calls that `hmasync_controller/executor.py` makes on its collaborators: the
-- acks, the profiler, the power cap, the adapter and the reporter, read as a protocol.
use async_energy_controller.Executor.Run.{
  preflight_failed, after_provision, build_record, exit_success, World, Event, Executor, RunResult,
  PlacementOutcome, execute, execute_job, preflight_and_run, profile_and_run, run_adapter,
  adapter_for, emit, bounded_request, acked, pulled, drained_reports, drained_bundles, provided,
  preflighted, fingerprinted, profiler_started, profiler_stopped, cap_applied, cap_restored, ran,
  reported, or_null, version_of,
}
use async_energy_controller.Executor.Schedule.{JobEntry, Placement, JobDef}
use async_energy_controller.Executor.Select.{opt_eq, resolve_job}
use async_energy_controller.Executor.Tick.{sync_schedule, drain, run_ticks, new_executor}
use async_energy_controller.Executor.Invariant.{IsKept, run_ticks-keeps}
use async_energy_controller.Executor.Once.{opt_eq_refl}
use async_energy_controller.Executor.Run
use async_energy_controller.Base.{
  Bool, true, false, not, ◌≡◌, refl, Option, none, some, List, [], ◌∷◌, String, str_eq, str_eq_iff,
  if◌then◌else◌, if_ind, ◌∙◌, ◌||◌, arith,
}
use async_energy_controller.Base.Int.{ℤ}
use async_energy_controller.Value.{DateTime, PyText, Fields, Value, str}

-- Where the controller stands in the handling of one placement.
pub data Phase : Type 0 where
  quiet checked printed : Phase
  begun : (workflow : Option String) → Phase
  profiling capped ran_capped released : (workflow : Option String) → (run_id : String) → Phase
  stopped delivered : (workflow : Option String) → Phase

-- What may come next. A job runs only between the start and the stop of the profiler with the run
-- id of that profiler, under the power cap where there is one; the record is reported when the
-- profiler has stopped; and the ack that ends a job is for the workflow whose ack began it.
abbrev pub next_phase : Bool → Phase → Event → Option Phase
next_phase cap quiet (pulled _) = some quiet
next_phase cap quiet drained_reports = some quiet
next_phase cap quiet drained_bundles = some quiet
next_phase cap quiet (provided _) = some quiet
next_phase cap quiet (preflighted _ _) = some checked
next_phase cap checked (fingerprinted _ _) = some printed
next_phase cap checked (acked _ event _ _) = if str_eq event "failed" then some quiet else none
next_phase cap printed (acked _ event w _) = if str_eq event "started" then some (begun w) else none
next_phase cap (begun w) (profiler_started r) = some (profiling w r)
next_phase cap (profiling w r) cap_applied = if cap then some (capped w r) else none
next_phase cap (profiling w r) (ran _ _) = if cap then none else some (released w r)
next_phase cap (profiling w r) (profiler_stopped s) =
    if cap then none else if str_eq r s then some (stopped w) else none
next_phase cap (capped w r) (ran _ _) = some (ran_capped w r)
next_phase cap (capped w r) cap_restored = some (released w r)
next_phase cap (ran_capped w r) cap_restored = some (released w r)
next_phase cap (released w r) (profiler_stopped s) = if str_eq r s then some (stopped w) else none
next_phase cap (stopped w) (reported _ _) = some (delivered w)
next_phase cap (delivered w) (acked _ event v _) =
    if opt_eq w v
    then if str_eq event "finished" || str_eq event "failed" then some quiet else none
    else none
next_phase cap _ _ = none

-- The phase after a history, latest call first: `none` if a call came out of order.
abbrev pub phase : Bool → List Event → Option Phase
phase cap [] = some quiet
phase cap (e ∷ es) = elim (phase cap es) [ none ↦ none | some p ↦ next_phase cap p e ]

next :
    (cap : Bool) (e : Event) (es : List Event) (p : Phase)
    → phase cap es ≡ some p
    → phase cap (e ∷ es) ≡ next_phase cap p e
next cap e es p h = rw h refl

finish :
    (cap b : Bool) (version : ℤ) (w : Option String) (now : DateTime) (entry : Fields)
    (samples : List Value) (es : List Event)
    → phase cap es ≡ some (stopped w)
    → phase cap
        (acked version (if b then "finished" else "failed") w now ∷ reported entry samples ∷ es)
      ≡ some quiet
finish cap true version w now entry samples es h =
    next cap (acked version "finished" w now) (reported entry samples ∷ es) (delivered w)
      (next cap (reported entry samples) es (stopped w) h)
    ∙ rw (opt_eq_refl w) refl
finish cap false version w now entry samples es h =
    next cap (acked version "failed" w now) (reported entry samples ∷ es) (delivered w)
      (next cap (reported entry samples) es (stopped w) h)
    ∙ rw (opt_eq_refl w) refl

module _ (texts : PyText) (job_source : Option String → JobEntry) (world : World) where
  bracket :
      (cap : Bool) (job : JobDef) (request : Option Fields) (w : Option String) (r : String)
      (st : Executor)
      → phase cap st.events ≡ some (profiling w r)
      → phase cap (
          profiler_stopped r
          ∷ (let st2 = if cap then emit cap_applied st else st in
              let st3 = (run_adapter texts world job request st2).1 in
              if cap then emit cap_restored st3 else st3).events)
        ≡ some (stopped w)
  unfolding run_adapter
  bracket true job none w r st h = rw (h, (str_eq_iff r r).1 refl) refl
  bracket true job (some request) w r st h = rw (h, (str_eq_iff r r).1 refl) refl
  bracket false job none w r st h =
      next false (profiler_stopped r) st.events (profiling w r) h
      ∙ rw ((str_eq_iff r r).1 refl) refl
  bracket false job (some request) w r st h =
      let at_run = next false (ran job.framework request) st.events (profiling w r) h in
      next false (profiler_stopped r) (ran job.framework request ∷ st.events) (released w r) at_run
      ∙ rw ((str_eq_iff r r).1 refl) refl

  profile-phase :
      (job : JobDef) (p : Placement) (run_id : String) (fingerprint : Value) (version : ℤ)
      (now : DateTime) (st : Executor)
      → phase world.has_power_cap st.events ≡ some printed
      → phase world.has_power_cap
          (profile_and_run texts world job p run_id fingerprint version now st).1.events
        ≡ some quiet
  unfolding profile_and_run
  profile-phase job p run_id fingerprint version now st h =
      let cap = world.has_power_cap in
      let w = p.workflow_id in
      let st1 = emit (acked version "started" w now) st in
      let st1' = emit (profiler_started run_id) st1 in
      let begun_now = next cap (acked version "started" w now) st.events printed h in
      let profiled = next cap (profiler_started run_id) st1.events (begun w) begun_now in
      let closed = bracket cap job (bounded_request texts job p now) w run_id st1' profiled in
      let (result, st3) =
        run_adapter texts world job (bounded_request texts job p now)
          (if cap then emit cap_applied st1' else st1') in
      let st4 = emit (profiler_stopped run_id) (if cap then emit cap_restored st3 else st3) in
      let telemetry = world.telemetry st4.events in
      finish cap (str_eq result.exit_status exit_success) version w now
        (build_record st.controller_id job p run_id fingerprint result now telemetry)
        telemetry.samples st4.events closed

  preflight-phase :
      (job : JobDef) (p : Placement) (version : ℤ) (now : DateTime) (st : Executor)
      → phase world.has_power_cap st.events ≡ some quiet
      → phase world.has_power_cap (preflight_and_run texts world job p version now st).1.events
        ≡ some quiet
  unfolding preflight_and_run
  preflight-phase job p version now st h =
      let checked_st = emit (preflighted job.framework job.request) st in
      let printed_st = emit (fingerprinted job.framework job.request) checked_st in
      let fingerprint = or_null (world.fingerprint printed_st.events) in
      let run_id = world.run_id st.events in
      let ready : Bool = elim (world.preflight checked_st.events) [ none ↦ false | some b ↦ b ] in
      let at_checked =
        next world.has_power_cap (preflighted job.framework job.request) st.events quiet h in
      let at_printed =
        next world.has_power_cap (fingerprinted job.framework job.request) checked_st.events checked
          at_checked in
      if_ind
        (λ (r : PlacementOutcome × Executor). phase world.has_power_cap r.1.events ≡ some quiet)
        (not ready)
        (
          Run.stopped texts world p (some run_id) preflight_failed (str "preflight failed"),
          emit (acked version "failed" p.workflow_id now) checked_st,
        )
        (profile_and_run texts world job p run_id fingerprint version now printed_st)
        (next world.has_power_cap (acked version "failed" p.workflow_id now) checked_st.events
          checked at_checked)
        (profile-phase job p run_id fingerprint version now printed_st at_printed)

  provided-phase :
      (framework : String) (st : Executor)
      → phase world.has_power_cap st.events ≡ some quiet
      → phase world.has_power_cap (adapter_for texts world framework st).1.events ≡ some quiet
  unfolding adapter_for
  provided-phase framework st h =
      let asked = next world.has_power_cap (provided framework) st.events quiet h in
      ground (arith, h, asked)

  resolved-phase :
      (job : JobDef) (p : Placement) (now : DateTime) (st : Executor) (error : Option String)
      (st' : Executor)
      → phase world.has_power_cap st'.events ≡ some quiet
      → phase world.has_power_cap (after_provision texts world job p now st error st').1.events
        ≡ some quiet
  unfolding after_provision
  resolved-phase job p now st none st' h =
      preflight-phase job p (version_of texts world st) now st' h
  resolved-phase job p now st (some message) st' h = h

  job-phase :
      (job : Option JobDef) (p : Placement) (now : DateTime) (st : Executor)
      → phase world.has_power_cap st.events ≡ some quiet
      → phase world.has_power_cap (execute_job texts world job p now st).1.events ≡ some quiet
  unfolding execute_job
  job-phase none p now st h = h
  job-phase (some job) p now st h =
      let (error, st') = adapter_for texts world job.framework st in
      resolved-phase job p now st error st' (provided-phase job.framework st h)

  drained-phase :
      (reachable : Bool) (st : Executor)
      → phase world.has_power_cap st.events ≡ some quiet
      → phase world.has_power_cap (drain texts job_source world reachable st).1.events ≡ some quiet
  unfolding drain
  drained-phase reachable st h =
      let reports = next world.has_power_cap drained_reports st.events quiet h in
      let bundles =
        next world.has_power_cap drained_bundles (drained_reports ∷ st.events) quiet reports in
      ground (arith, h, reports, bundles)

  synced-phase :
      (st : Executor) (r a : Bool) (st' : Executor)
      → sync_schedule texts job_source world st ≡ some (r, a, st')
      → phase world.has_power_cap st.events ≡ some quiet
      → phase world.has_power_cap st'.events ≡ some quiet
  unfolding sync_schedule
  synced-phase st r a st' e h =
      let at_pull = next world.has_power_cap (pulled st.version) st.events quiet h in
      ground (arith, at_pull)

  orderly : IsKept texts job_source world (λ st. phase world.has_power_cap st.events ≡ some quiet)
  unfolding execute
  orderly = record {
    synced = synced-phase;
    drained = drained-phase;
    attempted = λ now p st h. job-phase (resolve_job texts job_source p.workflow_id) p now st h;
  }

  -- From a new executor on, whatever the collaborators answer, however many rounds are run and on
  -- every path through a placement (an unknown job, a failed preflight, a crash of the adapter, a
  -- job that fails), the calls come in the order of the protocol: a job runs only while the
  -- profiler runs for it and, with a power cap wired, while the cap is applied; the cap is
  -- restored and the profiler stopped before the record is reported; and each job that was
  -- acknowledged as started is acknowledged as finished or failed, for the same workflow, before
  -- anything else begins.
  pub run_ticks-IsOrderly :
      (controller_id : String) (clock : List DateTime)
      → phase world.has_power_cap
          (run_ticks texts job_source world clock (new_executor controller_id)).2.events
        ≡ some quiet
  unfolding new_executor
  run_ticks-IsOrderly controller_id clock =
      run_ticks-keeps texts job_source world orderly clock (new_executor controller_id) refl
