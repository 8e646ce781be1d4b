-- ===== src/Executor/Examples.antt =====
-- The theorems about the executor, on a schedule of one placement.
use async_energy_controller.Executor.Window.{
  IsLimit, IsBudget, target_start-fallback, bounded_request-IsBounded,
}
use async_energy_controller.Executor.Select.{fallback, is_datetime, target_raises, resolve_job}
use async_energy_controller.Executor.Schedule.{resolve_entry, IsAware}
use async_energy_controller.Executor.Run.{declared_timeout, bounded_request}
use async_energy_controller.Value.{Fields, Float, get, float}
use async_energy_controller.Value.Number.{total_seconds}
use async_energy_controller.Base.{str_eq}
use async_energy_controller.Executor.Schedule.{
  instant, JobDef, JobEntry, definition, Placement, ActiveSchedule,
}
use async_energy_controller.Executor.Select.{
  normal, was_executed, due, pending, collect, arrived, target_start, mode_at,
}
use async_energy_controller.Executor.Run.{World, Executor, finished}
use async_energy_controller.Executor.Tick.{new_executor, run_ticks, run_due, todo}
use async_energy_controller.Executor.Order.{In, IsDue, due_iff}
use async_energy_controller.Executor.Once.{run_due-once}
use async_energy_controller.Executor.Protocol.{phase, quiet, run_ticks-IsOrderly}
use async_energy_controller.Samples.{texts}
use async_energy_controller.Base.{
  ℕ, inr, ◌≡◌, refl, true, false, none, some, Option, [], ◌∷◌, String, inl, ◌↔◌,
}
use async_energy_controller.Base.Int.{ℤ, pos, ◌-ℤ◌}
use async_energy_controller.Value.{DateTime, null, end, str}

abbrev at : ℤ → DateTime
at us = record { clock = us; offset = some (pos 0) }

abbrev job : JobDef
job = record {
  framework = "mock";
  request = end;
  workflow_id = none;
  deadline = none;
  earliest_start = none;
}

abbrev catalog : Option String → JobEntry
catalog w = definition job

abbrev morning : Placement
morning = record {
  workflow_id = some "w";
  start = some (at (pos 500));
  end_time = some (at (pos 900));
  predicted_wh = null;
  feasible = true;
  reason = null;
  raw = end;
}

abbrev schedule : ActiveSchedule
schedule = record {
  version = pos 1;
  valid_until = none;
  fallback_policy = str "deadline_latest_start";
  degraded = false;
  placements = morning ∷ [];
}

-- The API has nothing new, and a job succeeds.
abbrev calm : World
calm = record {
  pull = λ es. record {
    ok = true;
    status_code = some 304;
    content = null;
    error = null;
    transport_error = false;
  };
  drain = λ es. 0;
  has_extra_drain = false;
  extra_drain = λ es. none;
  provide = λ es. none;
  preflight = λ es. some true;
  fingerprint = λ es. some (str "f");
  has_power_cap = true;
  run = λ es. finished (record {
    exit_status = "success";
    work_units = null;
    work_unit_kind = null;
    content = null;
  });
  telemetry = λ es. record { record_fields = end; samples = [] };
  report_spooled = λ es. false;
  run_id = λ es. "r";
}

abbrev ready : Executor
ready = record {
  controller_id = "box";
  current = some schedule;
  version = pos 1;
  executed = [];
  adapters = [];
  events = [];
}

due_iff_example :
    In morning (due texts catalog [] (at (pos 1000)) normal schedule.placements)
    ↔ (In morning schedule.placements × IsDue texts catalog [] (at (pos 1000)) normal morning)
due_iff_example = due_iff texts catalog [] (at (pos 1000)) normal morning schedule.placements

morning-todo : In morning (todo texts catalog calm (at (pos 1000)) ready)
unfolding due pending collect mode_at arrived was_executed target_start instant ◌-ℤ◌
morning-todo = inl refl

run_due-once_example : ¬ In morning (
    todo texts catalog calm
      (at (pos 5000))
      (run_ticks texts catalog calm
        (at (pos 2000) ∷ at (pos 3000) ∷ [])
        (run_due texts catalog calm (at (pos 1000)) false 0 true ready).1).2)
run_due-once_example =
    run_due-once texts catalog calm (at (pos 1000)) false 0 true ready morning morning-todo
      (at (pos 2000) ∷ at (pos 3000) ∷ []) (at (pos 5000)) morning refl

run_ticks-IsOrderly_example :
    phase true
      (run_ticks texts catalog calm
        (at (pos 1000) ∷ at (pos 2000) ∷ [])
        (new_executor "box")).2.events
    ≡ some quiet
run_ticks-IsOrderly_example =
    run_ticks-IsOrderly texts catalog calm "box" (at (pos 1000) ∷ at (pos 2000) ∷ [])

target_start-fallback_example :
    (is_datetime (pos 500) ≡ true
      → (target_raises texts catalog morning fallback ≡ false)
        × (target : DateTime) × (target_start texts catalog morning fallback ≡ some target)
        × (instant (at (pos 900)) -ℤ instant target
            ≡ instant (at (pos 900)) -ℤ instant (at (pos 500)))
        × (at (pos 900) ≡ at (pos 900) → instant target ≡ instant (at (pos 500))))
    × (is_datetime (pos 500) ≡ false → target_raises texts catalog morning fallback ≡ true)
unfolding instant ◌-ℤ◌ resolve_job resolve_entry
target_start-fallback_example =
    target_start-fallback texts catalog morning (at (pos 500)) (at (pos 900)) (at (pos 900)) refl
      refl (pos 0, refl) (pos 0, refl) (pos 0, refl) (inr (refl, refl))

bounded_request-IsBounded_example :
    ((limit : DateTime)
      → IsLimit job morning limit
      → IsAware limit
      → (budget : ℕ) × IsBudget limit (at (pos 500)) budget
        × (declared_timeout texts job.request ≡ some none
            → (request : Fields) × (bounded_request texts job morning (at (pos 500)) ≡ some request)
              × (get "timeout" request ≡ float (total_seconds budget))
              × ((k : String) → str_eq "timeout" k ≡ false → get k request ≡ get k job.request))
        × ((x : Float)
            → declared_timeout texts job.request ≡ some (some x)
            → bounded_request texts job morning (at (pos 500)) ≡ some job.request))
    × (morning.end_time ≡ none
        → job.deadline ≡ none
        → bounded_request texts job morning (at (pos 500)) ≡ some job.request)
bounded_request-IsBounded_example = bounded_request-IsBounded texts job morning (at (pos 500))
