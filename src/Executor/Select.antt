-- ===== src/Executor/Select.antt =====
-- Which placements are pending and which are due: `_mode`, `_target_start`, `_key`, `_pending` and
-- `_due` of `ScheduleExecutor` in `hmasync_controller/executor.py`.
use Prim.Native.String.{compare}
use Prim.Native.Nat.{Ordering}
use async_energy_controller.Base.{
  String, Bool, true, false, not, ◌&&◌, ◌||◌, Option, none, some, List, [], ◌∷◌, str_eq, is_some,
  any, if◌then◌else◌,
}
use async_energy_controller.Base.Int.{ℤ, pos, ◌-ℤ◌, leb_ℤ, ltb_ℤ}
use async_energy_controller.Value.{DateTime, Value, list, dict, get, PyText}
use async_energy_controller.Executor.Schedule.{
  instant, JobDef, JobEntry, resolve_entry, Placement, ActiveSchedule,
}

pub data Mode : Type 0 where
  normal fallback idle : Mode

-- `(workflow_id, start.isoformat())`.
abbrev pub Key : Type 0
Key = Option String × Option String

abbrev pub opt_eq : Option String → Option String → Bool
opt_eq none none = true
opt_eq (some a) (some b) = str_eq a b
opt_eq none (some b) = false
opt_eq (some a) none = false

unfoldable pub key_eq : Key → Key → Bool
key_eq a b = opt_eq a.0 b.0 && opt_eq a.1 b.1

-- `key in self._executed`.
unfoldable pub was_executed : Key → List Key → Bool
unfolding key_eq
was_executed k [] = false
was_executed k (j ∷ js) = key_eq k j || was_executed k js

-- A placement with the time at which it should start.
pub record Pending : Type 0 where
  pub target : DateTime
  pub placement : Placement

unfoldable pub mode_at : DateTime → Option ActiveSchedule → Mode
mode_at now none = normal
mode_at now (some s) = elim s.valid_until [
  | none ↦ normal
  | some until ↦ if leb_ℤ (instant now) (instant until) then normal else fallback
]

-- Python's order of texts, by code points.
unfoldable pub str_leb : String → String → Bool
str_leb a b = elim (compare a b) [ Ordering.gt ↦ false | _ ↦ true ]

abbrev pub name_of : Option String → String
name_of none = ""
name_of (some s) = s

-- The sort key `(target, workflow_id or "")`.
unfoldable pub not_after : Pending → Pending → Bool
unfolding str_leb
not_after a b =
    if ltb_ℤ (instant a.target) (instant b.target)
    then true
    else if ltb_ℤ (instant b.target) (instant a.target)
    then false
    else str_leb (name_of a.placement.workflow_id) (name_of b.placement.workflow_id)

unfoldable pub insert_pending : Pending → List Pending → List Pending
unfolding not_after
insert_pending p [] = p ∷ []
insert_pending p (q ∷ qs) =
    let rest = insert_pending p qs in if not_after p q then p ∷ q ∷ qs else q ∷ rest

-- The stable `pending.sort(key=…)`.
unfoldable pub sort_pending : List Pending → List Pending
unfolding insert_pending
sort_pending [] = []
sort_pending (p ∷ ps) = insert_pending p (sort_pending ps)

-- Whether a clock is one that a datetime has, from the year 1 to the end of the year 9999.
abbrev pub is_datetime : ℤ → Bool
is_datetime clock = leb_ℤ (pos 0) clock && ltb_ℤ clock (pos 315_537_897_600_000_000)

-- Whether `deadline - duration` raises `OverflowError`.
abbrev pub out_of_range : Option DateTime → Option ℤ → Bool
out_of_range (some d) (some length_us) = not (is_datetime (d.clock -ℤ length_us))
out_of_range (some d) none = false
out_of_range none l = false

-- Whether `key in self._executed` raises `TypeError` for the id that the API gave.
abbrev pub is_unhashable : Value → Bool
is_unhashable (list vs) = true
is_unhashable (dict fs) = true
is_unhashable _ = false

-- `pending.append(…)` where there is an entry.
abbrev pub attach : Option Pending → List Pending → List Pending
attach none rest = rest
attach (some d) rest = d ∷ rest

module _ (texts : PyText) (job_source : Option String → JobEntry) where
  unfoldable pub resolve_job : Option String → Option JobDef
  unfolding resolve_entry
  resolve_job wid = resolve_entry texts wid (job_source wid)

  unfoldable pub key : Placement → Key
  key p = (p.workflow_id, elim p.start [ none ↦ none | some t ↦ some (texts.isoformat t) ])

  -- The deadline that the fallback runs up to: the job's own, else the planned end.
  unfoldable pub fallback_deadline : Option JobDef → Placement → Option DateTime
  fallback_deadline none p = p.end_time
  fallback_deadline (some job) p = elim job.deadline [ none ↦ p.end_time | some d ↦ some d ]

  -- `end - start`, in microseconds.
  unfoldable pub duration : Placement → Option ℤ
  duration p = elim p.start [
    | none ↦ none
    | some s ↦ elim p.end_time [ none ↦ none | some e ↦ some (instant e -ℤ instant s) ]
  ]

  -- Where the subtraction does not raise.
  unfoldable pub latest_start : Option DateTime → Option DateTime → Option ℤ → Option DateTime
  latest_start start (some d) (some length_us) = some (record d { clock = d.clock -ℤ length_us })
  latest_start start none l = start
  latest_start start (some d) none = start

  unfoldable pub target_start : Placement → Mode → Option DateTime
  unfolding fallback_deadline duration latest_start
  target_start p fallback =
      latest_start p.start (fallback_deadline (resolve_job p.workflow_id) p) (duration p)
  target_start p _ = p.start

  unfoldable pub target_raises : Placement → Mode → Bool
  unfolding fallback_deadline duration
  target_raises p fallback =
      out_of_range (fallback_deadline (resolve_job p.workflow_id) p) (duration p)
  target_raises p _ = false

  -- Whether `_pending` raises at the placement.
  unfoldable pub entry_raises : List Key → Mode → Placement → Bool
  unfolding target_raises
  entry_raises executed mode p =
      if not p.feasible || not (is_some p.start)
      then false
      else if is_unhashable (get "workflow_id" p.raw)
      then true
      else if was_executed (key p) executed
      then false
      else target_raises p mode

  unfoldable pub pending_raises : List Key → Mode → List Placement → Bool
  unfolding entry_raises
  pending_raises executed mode ps = any (entry_raises executed mode) ps

  -- The entry of one placement in the list of `_pending`, if it has one.
  unfoldable pub pending_entry : List Key → Mode → Placement → Option Pending
  pending_entry executed mode p =
      if not p.feasible || not (is_some p.start)
      then none
      else if was_executed (key p) executed
      then none
      else elim (target_start p mode) [
        | none ↦ none
        | some t ↦ some (record { target = t; placement = p })
      ]

  unfoldable pub collect : List Key → Mode → List Placement → List Pending
  unfolding pending_entry
  collect executed mode [] = []
  collect executed mode (p ∷ ps) =
      let rest = collect executed mode ps in attach (pending_entry executed mode p) rest

  unfoldable pub pending : List Key → Mode → List Placement → List Pending
  unfolding collect sort_pending
  pending executed mode ps = sort_pending (collect executed mode ps)

  unfoldable pub arrived : DateTime → List Pending → List Placement
  arrived now [] = []
  arrived now (d ∷ ds) =
      let rest = arrived now ds in
      if leb_ℤ (instant d.target) (instant now) then d.placement ∷ rest else rest

  unfoldable pub due : List Key → DateTime → Mode → List Placement → List Placement
  unfolding pending arrived
  due executed now mode ps = arrived now (pending executed mode ps)
