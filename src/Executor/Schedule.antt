-- ===== src/Executor/Schedule.antt =====
-- The parsed schedule and the job catalog of `hmasync_controller/executor.py`.
use Prim.Native.Char.{code}
use async_energy_controller.Base.{
  ℕ, suc, ◌^◌, ◌/◌, ◌-◌, String, Bool, true, false, ◌&&◌, ◌||◌, Option, none, some, List, [], ◌∷◌,
  str_eq, leb, ◌==◌, ◌≡◌, if◌then◌else◌,
}
use async_energy_controller.Base.Int.{ℤ, pos, negsuc, ◌-ℤ◌}
use async_energy_controller.Value.{
  finite, DateTime, Value, null, bool, int, float, str, datetime, list, tuple, dict, Fields, end,
  get, has_key, truthy, values_of, text?, PyText,
}

unfoldable pub ensure_aware : DateTime → DateTime
ensure_aware t = elim t.offset [ none ↦ record t { offset = some (pos 0) } | some _ ↦ t ]

-- A datetime with a distance from UTC; Python refuses to compare another one with it.
abbrev pub IsAware : DateTime → Type 0
IsAware t = (offset : ℤ) × (t.offset ≡ some offset)

-- The point in time of an aware datetime, in microseconds.
unfoldable pub instant : DateTime → ℤ
instant t = elim t.offset [ none ↦ t.clock | some o ↦ t.clock -ℤ o ]

-- The characters that `str.strip` takes away.
unfoldable pub is_space : ℕ → Bool
is_space c =
    (leb 9 c && leb c 13)
    || (leb 28 c && leb c 32)
    || (c == 133)
    || (c == 160)
    || (c == 5760)
    || (leb 8192 c && leb c 8202)
    || (c == 8232)
    || (c == 8233)
    || (c == 8239)
    || (c == 8287)
    || (c == 12288)

unfoldable pub lstrip : String → String
unfolding is_space
lstrip String.[] = ""
lstrip (String.◌∷◌ c s) = let rest = lstrip s in if is_space (code c) then rest else String.◌∷◌ c s

unfoldable pub rstrip : String → String
unfolding is_space
rstrip String.[] = ""
rstrip (String.◌∷◌ c s) =
    let rest = rstrip s in if str_eq rest "" && is_space (code c) then "" else String.◌∷◌ c rest

-- A trailing 'Z' becomes "+00:00".
unfoldable pub replace_z : String → String
replace_z String.[] = ""
replace_z (String.◌∷◌ c s) =
    let rest = replace_z s in if str_eq s "" && code c == b'Z' then "+00:00" else String.◌∷◌ c rest

unfoldable pub parse_dt : PyText → Value → Option DateTime
unfolding ensure_aware lstrip rstrip replace_z
parse_dt texts (datetime t) = some (ensure_aware t)
parse_dt texts (str s) =
    if str_eq s "" then none else elim (texts.fromisoformat (replace_z (rstrip (lstrip s)))) [
      | none ↦ none
      | some t ↦ some (ensure_aware t)
    ]
parse_dt texts _ = none

pub record JobDef : Type 0 where
  pub framework : String
  pub request : Fields
  pub workflow_id : Option String
  pub deadline : Option DateTime
  pub earliest_start : Option DateTime

-- What the job source has for a workflow: nothing, a definition, or an entry of the catalog.
pub data JobEntry : Type 0 where
  missing : JobEntry
  definition : JobDef → JobEntry
  entry : Fields → JobEntry

abbrev pub text_or : String → Value → String
text_or d v = elim (text? v) [ none ↦ d | some s ↦ s ]

-- `dict(job.get("request") or {})` for a request that is an object or is not there; an operator's catalog
-- with any other request, at which `dict` raises, is outside of the model.
abbrev pub object_of : Value → Fields
object_of (dict fs) = fs
object_of _ = end

unfoldable pub resolve_entry : PyText → Option String → JobEntry → Option JobDef
unfolding parse_dt
resolve_entry texts wid missing = none
resolve_entry texts wid (definition job) = some job
resolve_entry texts wid (entry fs) = some (record {
  framework = text_or "" (get "framework" fs);
  request = object_of (get "request" fs);
  workflow_id = if has_key "workflow_id" fs then text? (get "workflow_id" fs) else wid;
  deadline = parse_dt texts (get "deadline" fs);
  earliest_start = parse_dt texts (get "earliest_start" fs);
})

pub record Placement : Type 0 where
  pub workflow_id : Option String
  pub start : Option DateTime
  pub end_time : Option DateTime
  pub predicted_wh : Value
  pub feasible : Bool
  pub reason : Value
  pub raw : Fields

pub record ActiveSchedule : Type 0 where
  pub version : ℤ
  pub valid_until : Option DateTime
  pub fallback_policy : Value
  pub degraded : Bool
  pub placements : List Placement

-- The id is a text or null; that of a placement whose `raw` has a list or an object in its place is never
-- looked up, since `_pending` raises. A number as an id is outside of the model.
unfoldable pub parse_placement : PyText → Fields → Placement
unfolding parse_dt truthy
parse_placement texts fs = record {
  workflow_id = text? (get "workflow_id" fs);
  start = parse_dt texts (get "start" fs);
  end_time = parse_dt texts (get "end" fs);
  predicted_wh = get "predicted_wh" fs;
  feasible = if has_key "feasible" fs then truthy (get "feasible" fs) else true;
  reason = get "reason" fs;
  raw = fs;
}

-- `int(value)`: `none` is its `TypeError`, `ValueError` or `OverflowError`.
unfoldable pub int_of : PyText → Value → Option ℤ
int_of texts (int n) = some n
int_of texts (bool b) = some (pos (if b then 1 else 0))
int_of texts (str s) = texts.parse_int s
int_of texts (float (finite (pos n))) = some (pos (n / 2 ^ 1074))
int_of texts (float (finite (negsuc n))) =
    let whole = suc n / 2 ^ 1074 in some (if whole == 0 then pos 0 else negsuc (whole - 1))
int_of texts _ = none

unfoldable pub parse_placements : PyText → List Value → List Placement
unfolding parse_placement
parse_placements texts [] = []
parse_placements texts (dict fs ∷ vs) = parse_placement texts fs ∷ parse_placements texts vs
parse_placements texts (_ ∷ vs) = parse_placements texts vs

-- The values that iterating over `data.get("placements") or []` gives, as far as they may be
-- objects: a text and an object give texts. `none` is the `TypeError` of what cannot be iterated.
unfoldable pub iterated : Value → Option (List Value)
iterated null = some []
iterated (list vs) = some (values_of vs)
iterated (tuple vs) = some (values_of vs)
iterated (str s) = some []
iterated (dict fs) = some []
iterated v = if truthy v then none else some []

-- `none`: the parsing raises.
unfoldable pub parse_schedule : PyText → Fields → Option ActiveSchedule
unfolding int_of iterated parse_placements truthy
parse_schedule texts fs = elim (iterated (get "placements" fs)) [
  | none ↦ none
  | some vs ↦
      elim (if has_key "version" fs then int_of texts (get "version" fs) else some (pos 0)) [
        | none ↦ none
        | some version ↦ some (record {
          version = version;
          valid_until = parse_dt texts (get "valid_until" fs);
          fallback_policy =
              if truthy (get "fallback_policy" fs)
              then get "fallback_policy" fs
              else str "deadline_latest_start";
          degraded = if has_key "degraded" fs then truthy (get "degraded" fs) else false;
          placements = parse_placements texts vs;
        })
      ]
]
