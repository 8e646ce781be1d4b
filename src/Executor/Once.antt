-- ===== src/Executor/Once.antt =====
-- A placement is attempted once: what `tick` of `hmasync_controller/executor.py` remembers.
use async_energy_controller.Executor.Order.{In, due_iff}
use async_energy_controller.Base.{
  ◌≡◌, refl, true, false, Bool, List, [], ◌∷◌, none, some, Option, arith, String, str_eq_iff, inl,
  inr, if_ind, ◌∙◌, ℕ,
}
use async_energy_controller.Value.{DateTime, PyText, Fields, Value}
use async_energy_controller.Executor.Select.{
  mode_at, Key, was_executed, opt_eq, key, resolve_job, mode_at,
}
use async_energy_controller.Executor.Schedule.{JobEntry, Placement, JobDef}
use async_energy_controller.Executor.Run.{
  World, execute, Executor, adapter_for, run_adapter, Event, profile_and_run, preflight_and_run,
  execute_job, emit_cap, version_of, emit, PlacementOutcome, acked, cap_applied, profiler_started,
  bounded_request, cap_restored, preflighted, fingerprinted, or_null, after_provision,
}
use async_energy_controller.Executor.Tick.{
  sync_schedule, execute_all, drain, run_due, run_ticks, todo, placements_of,
}
use async_energy_controller.Executor.Invariant.{IsKept, run_ticks-keeps}
use async_energy_controller.Base.Int.{ℤ}
use async_energy_controller.Executor.Invariant.{IsKept, run_ticks-keeps}

abbrev pub Remembers : List Key → List Key → Type 0
Remembers js ks = (k : Key) → was_executed k js ≡ true → was_executed k ks ≡ true

was_executed-cons :
    (k j : Key) (js : List Key) → was_executed k js ≡ true → was_executed k (j ∷ js) ≡ true
unfolding was_executed
was_executed-cons k j js h = ground arith

pub opt_eq_refl : (a : Option String) → opt_eq a a ≡ true
opt_eq_refl none = refl
opt_eq_refl (some s) = (str_eq_iff s s).1 refl

was_executed_self : (k : Key) (js : List Key) → was_executed k (k ∷ js) ≡ true
unfolding was_executed
was_executed_self k js = ground (arith, opt_eq_refl k.0, opt_eq_refl k.1)

module _ (texts : PyText) (job_source : Option String → JobEntry) (world : World) where
  executed-adapter_for :
      (framework : String) (st : Executor)
      → (adapter_for texts world framework st).1.executed ≡ st.executed
  unfolding adapter_for
  executed-adapter_for framework st = ground arith

  executed-run_adapter :
      (job : JobDef) (request : Option Fields) (st : Executor)
      → (run_adapter texts world job request st).1.executed ≡ st.executed
  unfolding run_adapter
  executed-run_adapter job none st = refl
  executed-run_adapter job (some request) st = refl

  executed-emit_cap :
      (event : Event) (st : Executor) → (emit_cap texts world event st).executed ≡ st.executed
  executed-emit_cap event st =
      if_ind (λ (s : Executor). s.executed ≡ st.executed) world.has_power_cap (emit event st) st
        refl refl

  executed-profile :
      (job : JobDef) (p : Placement) (run_id : String) (fingerprint : Value) (version : ℤ)
      (now : DateTime) (st : Executor)
      → (profile_and_run texts world job p run_id fingerprint version now st).1.executed
        ≡ st.executed
  unfolding profile_and_run
  executed-profile job p run_id fingerprint version now st =
      let st1 = emit (acked version "started" p.workflow_id now) st in
      let st2 = emit_cap texts world cap_applied (emit (profiler_started run_id) st1) in
      let request = bounded_request texts job p now in
      executed-emit_cap cap_restored _
      ∙ executed-run_adapter job request st2
      ∙ executed-emit_cap cap_applied (emit (profiler_started run_id) st1)

  executed-preflight :
      (job : JobDef) (p : Placement) (version : ℤ) (now : DateTime) (st : Executor)
      → (preflight_and_run texts world job p version now st).1.executed ≡ st.executed
  unfolding preflight_and_run
  executed-preflight job p version now st =
      let checked = emit (preflighted job.framework job.request) st in
      let printed = emit (fingerprinted job.framework job.request) checked in
      let fingerprint = or_null (world.fingerprint printed.events) in
      let run_id = world.run_id st.events in
      if_ind (λ (r : PlacementOutcome × Executor). r.1.executed ≡ st.executed) _ (_, _) (_, _) refl
        (executed-profile job p run_id fingerprint version now printed)

  executed-provision :
      (job : JobDef) (p : Placement) (now : DateTime) (st : Executor) (error : Option String)
      (st' : Executor)
      → (after_provision texts world job p now st error st').1.executed ≡ st'.executed
  unfolding after_provision
  executed-provision job p now st none st' =
      executed-preflight job p (version_of texts world st) now st'
  executed-provision job p now st (some message) st' = refl

  executed-job :
      (job : Option JobDef) (p : Placement) (now : DateTime) (st : Executor)
      → (execute_job texts world job p now st).1.executed ≡ st.executed
  unfolding execute_job
  executed-job none p now st = refl
  executed-job (some job) p now st =
      let (error, st') = adapter_for texts world job.framework st in
      executed-provision job p now st error st' ∙ executed-adapter_for job.framework st

  -- Executing a placement leaves the set of the attempted ones alone.
  executed-execute :
      (p : Placement) (now : DateTime) (st : Executor)
      → (execute texts world job_source p now st).1.executed ≡ st.executed
  unfolding execute
  executed-execute p now st = executed-job (resolve_job texts job_source p.workflow_id) p now st

  pub executed-sync :
      (st : Executor) (r a : Bool) (st' : Executor)
      → sync_schedule texts job_source world st ≡ some (r, a, st')
      → st'.executed ≡ st.executed
  unfolding sync_schedule
  executed-sync st r a st' h = ground arith

  pub executed-drain :
      (reachable : Bool) (st : Executor)
      → (drain texts job_source world reachable st).1.executed ≡ st.executed
  unfolding drain
  executed-drain reachable st = ground arith

  execute_all-Remembers :
      (now : DateTime) (ps : List Placement) (st : Executor)
      → Remembers st.executed (execute_all texts job_source world now ps st).1.executed
  unfolding execute_all
  execute_all-Remembers now [] st k h = h
  execute_all-Remembers now (p ∷ ps) st k h =
      execute_all-Remembers now ps _ k (was_executed-cons k _ _ (rw (executed-execute p now st) h))

  execute_all-marks :
      (now : DateTime) (ps : List Placement) (st : Executor) (p : Placement)
      → In p ps
      → was_executed
          (key texts job_source p)
          (execute_all texts job_source world now ps st).1.executed
        ≡ true
  unfolding execute_all
  execute_all-marks now [] st p h = absurd h
  execute_all-marks now (q ∷ ps) st p (inl e) =
      execute_all-Remembers now ps _ _ (rw e (was_executed_self (key texts job_source q) _))
  execute_all-marks now (q ∷ ps) st p (inr k) = execute_all-marks now ps _ p k

  -- A key that was attempted stays attempted.
  pub remembered :
      (k : Key) → IsKept texts job_source world (λ st. was_executed k st.executed ≡ true)
  remembered k = record {
    synced = λ st r a st' e h. rw (executed-sync st r a st' e) h;
    drained = λ r st h. rw (executed-drain r st) h;
    attempted = λ now p st h. was_executed-cons k _ _ (rw (executed-execute p now st) h);
  }

  pub run_due-marks :
      (now : DateTime) (a : Bool) (d : ℕ) (r : Bool) (st : Executor) (p : Placement)
      → In p (todo texts job_source world now st)
      → was_executed
          (key texts job_source p)
          (run_due texts job_source world now a d r st).1.executed
        ≡ true
  unfolding run_due
  run_due-marks now a d r st p k = execute_all-marks now (todo texts job_source world now st) st p k

  -- A placement that one tick attempted is not due in any later tick, whatever schedules are
  -- pulled in between and however the clock runs: no placement of its workflow and start is.
  pub run_due-once :
      (now : DateTime) (a : Bool) (d : ℕ) (r : Bool) (st : Executor) (p : Placement)
      → In p (todo texts job_source world now st)
      → (clock : List DateTime) (later : DateTime) (q : Placement)
      → key texts job_source q ≡ key texts job_source p
      → ¬ In q (
          todo texts job_source world later
            (run_ticks texts job_source world clock
              (run_due texts job_source world now a d r st).1).2)
  run_due-once now a d r st p k clock later q e due =
      let st1 = (run_due texts job_source world now a d r st).1 in
      let st2 = (run_ticks texts job_source world clock st1).2 in
      let kept =
        run_ticks-keeps texts job_source world (remembered (key texts job_source p)) clock st1
          (run_due-marks now a d r st p k) in
      let found =
        (due_iff texts job_source st2.executed later (mode_at later st2.current) q
            (placements_of st2)).0
          due in
      let fresh : was_executed (key texts job_source p) st2.executed ≡ false =
        rw (← e) found.1.fresh in
      cc
