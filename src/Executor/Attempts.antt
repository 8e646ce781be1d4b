-- ===== src/Executor/Attempts.antt =====
-- What is due is attempted: `tick` and `run_forever` of `hmasync_controller/executor.py`.
use async_energy_controller.Base.{true, ◌⊎◌, Option, some, List, [], ◌∷◌, String, ◌≡◌}
use async_energy_controller.Base.Int.{ℤ, ◌-ℤ◌}
use async_energy_controller.Value.{DateTime, PyText, Value, null, str, get}
use async_energy_controller.Executor.Schedule.{IsAware, JobEntry, Placement}
use async_energy_controller.Executor.Select.{
  is_datetime, fallback_deadline, duration, was_executed, key, resolve_job,
}
use async_energy_controller.Executor.Run.{World, Executor, PlacementOutcome}
use async_energy_controller.Executor.Tick.{TickResult}
use async_energy_controller.Executor.Order.{In}

-- Among the outcomes of the first round there is one for the workflow of the placement.
abbrev pub IsAnswered : Placement → List TickResult → Type 0
IsAnswered p [] = ⊥
IsAnswered p (result ∷ results) =
    (o : PlacementOutcome) × In o result.outcomes × (o.workflow_id ≡ p.workflow_id)

-- An id that the API gives is a text or null.
abbrev pub IsId : Value → Type 0
IsId v = (v ≡ null) ⊎ ((s : String) × (v ≡ str s))

module _ (texts : PyText) (job_source : Option String → JobEntry) (world : World) where
  -- The placement has a text or no id, its times and its deadline are aware, and its latest start is not outside
  -- of the years that a datetime has.
  pub record IsSchedulable (p : Placement) : Type 0 where
    pub named : IsId (get "workflow_id" p.raw)
    pub aware :
        (t : DateTime)
        → (p.start ≡ some t)
          ⊎ ((p.end_time ≡ some t)
              ⊎ (fallback_deadline texts job_source (resolve_job texts job_source p.workflow_id) p
                  ≡ some t))
        → IsAware t
    pub ranged :
        (deadline : DateTime) (planned : ℤ)
        → fallback_deadline texts job_source (resolve_job texts job_source p.workflow_id) p
          ≡ some deadline
        → duration texts job_source p ≡ some planned
        → is_datetime (deadline.clock -ℤ planned) ≡ true

  -- What a round leaves of a placement that it selected.
  abbrev IsDone : Placement → TickResult × Executor → Type 0
  IsDone p (result, st) =
      IsAnswered p (result ∷ []) × (was_executed (key texts job_source p) st.executed ≡ true)
