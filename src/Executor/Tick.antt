-- ===== src/Executor/Tick.antt =====
-- `sync_schedule`, `_adopt`, `tick`, `_safe_extra_drain` and `run_forever` of `ScheduleExecutor`
-- in `hmasync_controller/executor.py`.
use async_energy_controller.Base.{
  ℕ, ◌+◌, String, Bool, true, false, not, ◌&&◌, Option, none, some, List, [], ◌∷◌, length, ◌==◌,
  if◌then◌else◌,
}
use async_energy_controller.Base.Int.{ℤ, negsuc}
use async_energy_controller.Value.{DateTime, Value, dict, PyText}
use async_energy_controller.Api.Response.{ApiResult}
use async_energy_controller.Executor.Schedule.{
  ensure_aware, JobEntry, Placement, parse_schedule, ActiveSchedule,
}
use async_energy_controller.Executor.Select.{
  Mode, idle, mode_at, key, Pending, pending, pending_raises, due,
}
use async_energy_controller.Executor.Run.{
  pulled, drained_reports, drained_bundles, World, Executor, PlacementOutcome, emit, execute,
}

pub record TickResult : Type 0 where
  pub version : ℤ
  pub adopted : Bool
  pub mode : Mode
  pub outcomes : List PlacementOutcome
  pub drained : ℕ
  pub reachable : Bool
  pub placements : ℕ
  pub pending_count : ℕ
  pub next_start : Option DateTime

-- `ScheduleExecutor.__init__`.
unfoldable pub new_executor : String → Executor
new_executor controller_id = record {
  controller_id = controller_id;
  current = none;
  version = negsuc 0;
  executed = [];
  adapters = [];
  events = [];
}

abbrev pub is_200 : ApiResult → Bool
is_200 r = r.ok && elim r.status_code [ none ↦ false | some n ↦ n == 200 ]

abbrev pub placements_of : Executor → List Placement
placements_of st = elim st.current [ none ↦ [] | some s ↦ s.placements ]

abbrev pub first_target : List Pending → Option DateTime
first_target [] = none
first_target (d ∷ ds) = some d.target

module _ (texts : PyText) (job_source : Option String → JobEntry) (world : World) where
  -- `none`: the body cannot be parsed, and the exception leaves the tick.
  unfoldable pub adopt : Value → Executor → Option (Bool × Executor)
  adopt (dict fs) st = elim (parse_schedule texts fs) [
    | none ↦ none
    | some s ↦ some (true, record st { current = some s; version = s.version })
  ]
  adopt _ st = some (false, st)

  -- `(reachable, adopted)`.
  unfoldable pub sync_schedule : Executor → Option (Bool × Bool × Executor)
  unfolding adopt
  sync_schedule st =
      let st' = emit (pulled st.version) st in
      let result = world.pull st'.events in
      elim (if is_200 result then adopt result.content st' else some (false, st')) [
        | none ↦ none
        | some (adopted, st'') ↦ some (not result.transport_error, adopted, st'')
      ]

  -- `self._extra_drain`, 0 where it raises.
  unfoldable pub safe_extra_drain : Executor → ℕ × Executor
  safe_extra_drain st =
      let st' = emit drained_bundles st in
      (elim (world.extra_drain st'.events) [ none ↦ 0 | some n ↦ n ], st')

  unfoldable pub drain : Bool → Executor → ℕ × Executor
  unfolding safe_extra_drain
  drain reachable st =
      let st' = emit drained_reports st in
      let flushed = world.drain st'.events in
      let (more, st'') = safe_extra_drain st' in
      if not reachable
      then (0, st)
      else if world.has_extra_drain
      then (flushed + more, st'')
      else (flushed, st')

  -- The loop over the placements that are due.
  unfoldable pub execute_all :
      DateTime → List Placement → Executor → List PlacementOutcome × Executor
  execute_all now [] st = ([], st)
  execute_all now (p ∷ ps) st =
      let (outcome, st') = execute texts world job_source p now st in
      let marked = record st' { executed = key texts job_source p ∷ st'.executed } in
      let (outcomes, st'') = execute_all now ps marked in (outcome ∷ outcomes, st'')

  abbrev pub todo : DateTime → Executor → List Placement
  todo now st = due texts job_source st.executed now (mode_at now st.current) (placements_of st)

  -- The part of a tick after the drain, with a schedule in hand.
  unfoldable pub run_due : DateTime → Bool → ℕ → Bool → Executor → TickResult × Executor
  unfolding execute_all
  run_due now adopted drained reachable st =
      let mode = mode_at now st.current in
      let (outcomes, st') = execute_all now (todo now st) st in
      let ahead = pending texts job_source st'.executed mode (placements_of st) in
      (
        record {
          version = st.version;
          adopted = adopted;
          mode = mode;
          outcomes = outcomes;
          drained = drained;
          reachable = reachable;
          placements = length (placements_of st);
          pending_count = length ahead;
          next_start = first_target ahead;
        },
        st',
      )

  -- The part of a tick after the drain, given the schedule in hand.
  unfoldable pub after_drain :
      DateTime → Bool → Bool → ℕ → Option ActiveSchedule → Executor → TickResult × Executor
  unfolding run_due
  after_drain now reachable adopted drained none st = (
    record {
      version = st.version;
      adopted = adopted;
      mode = idle;
      outcomes = [];
      drained = drained;
      reachable = reachable;
      placements = 0;
      pending_count = 0;
      next_start = none;
    },
    st,
  )
  after_drain now reachable adopted drained (some _) st = run_due now adopted drained reachable st

  -- `tick` with the result of the sync; none where the sync has raised or `_pending` raises, which it does
  -- before anything is executed, or not at all.
  unfoldable pub after_sync :
      DateTime → Option (Bool × Bool × Executor) → Option (TickResult × Executor)
  unfolding drain after_drain
  after_sync now none = none
  after_sync now (some (reachable, adopted, st)) =
      let (drained, st') = drain reachable st in
      let raises =
        pending_raises texts job_source st'.executed (mode_at now st'.current)
          (placements_of st') in
      if raises then none else some (after_drain now reachable adopted drained st'.current st')

  unfoldable pub tick : DateTime → Executor → Option (TickResult × Executor)
  unfolding sync_schedule after_sync
  tick now st = after_sync (ensure_aware now) (sync_schedule st)

  -- The rounds after the first one, unless that raised.
  unfoldable pub continue :
      (Executor → List TickResult × Bool × Executor)
      → Executor
      → Option (TickResult × Executor)
      → List TickResult × Bool × Executor
  continue rest st none = ([], true, st)
  continue rest st (some (result, st')) =
      let (results, raised, st'') = rest st' in (result ∷ results, raised, st'')

  -- `run_forever` with `max_ticks` rounds over a clock, without `stop`; a raising `on_tick` is
  -- caught there. The results in order, and whether a tick raised.
  unfoldable pub run_ticks : List DateTime → Executor → List TickResult × Bool × Executor
  unfolding tick continue
  run_ticks [] st = ([], false, st)
  run_ticks (now ∷ clock) st = continue (λ st'. run_ticks clock st') st (tick now st)
