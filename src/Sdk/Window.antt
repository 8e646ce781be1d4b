-- ===== src/Sdk/Window.antt =====
-- `Window`, `_parse_dt` and `AsyncEnergy.next_window` of `hmasync_controller/sdk.py`. A time is in
-- microseconds.
use Prim.Native.Char.{code}
use Prim.Native.String.{◌++◌ as text_append}
use async_energy_controller.Base.{
  ℕ, String, Bool, true, false, not, Option, none, some, ◌==◌, if◌then◌else◌,
}
use async_energy_controller.Base.Int.{ℤ, pos, pos_part, ◌-ℤ◌, leb_ℤ}
use async_energy_controller.Value.{
  DateTime, Value, bool, str, datetime, dict, Fields, end, get, has_key, truthy, PyText,
}
use async_energy_controller.Api.Response.{ApiResult}
use async_energy_controller.Api.Client.{Client, Network}
use async_energy_controller.Api.Endpoints.{advise}
use async_energy_controller.Executor.Schedule.{ensure_aware, instant}

-- The fields of `Window`; what the API may send in any form is a value.
pub record Window : Type 0 where
  pub start : Option DateTime
  pub finish : Option DateTime
  pub grid_cost : Value
  pub now_cost : Value
  pub savings : Value
  pub predicted_wh : Value
  pub feasible : Bool
  pub reason : Value
  pub prediction_method : Value
  pub degraded : Bool
  pub raw : Fields

-- `text.replace("Z", "+00:00")`.
unfoldable pub replace_every_z : String → String
replace_every_z String.[] = ""
replace_every_z (String.◌∷◌ c s) =
    let rest = replace_every_z s in
    if code c == b'Z' then text_append "+00:00" rest else String.◌∷◌ c rest

unfoldable pub parse_when : PyText → Value → Option DateTime
unfolding ensure_aware replace_every_z truthy
parse_when texts (datetime t) = some (ensure_aware t)
parse_when texts v =
    if not (truthy v) then none else elim (texts.fromisoformat (replace_every_z (texts.format v))) [
      | none ↦ none
      | some t ↦ some (ensure_aware t)
    ]

-- `data.get(key, default)`.
unfoldable pub get_or : String → Value → Fields → Value
get_or key fallback fs = if has_key key fs then get key fs else fallback

-- What a call comes to: a value, an `AsyncEnergyError` with its text, or another exception.
pub data Asked (A : Type 0) : Type 0 where
  answered : A → Asked A
  refused : Value → Asked A
  crashed : Asked A

unfoldable pub window_of : PyText → Fields → Window
unfolding parse_when get_or
window_of texts data_fields = record {
  start = parse_when texts (get "start" data_fields);
  finish = parse_when texts (get "end" data_fields);
  grid_cost = get "grid_cost" data_fields;
  now_cost = get "now_cost" data_fields;
  savings = get "savings" data_fields;
  predicted_wh = get "predicted_wh" data_fields;
  feasible = truthy (get_or "feasible" (bool true) data_fields);
  reason = get "reason" data_fields;
  prediction_method = get_or "prediction_method" (str "prior") data_fields;
  degraded = truthy (get_or "degraded" (bool false) data_fields);
  raw = data_fields;
}

-- `data = result.data or {}` and what is read from it; what is no object has no `get`.
unfoldable pub read_window : PyText → Value → Asked Window
unfolding window_of
read_window texts (dict fs) = answered (window_of texts fs)
read_window texts v = if truthy v then crashed else answered (window_of texts end)

unfoldable pub advised : PyText → ApiResult → Asked Window
unfolding read_window
advised texts result =
    if not result.ok
    then refused (if truthy result.error then result.error else str "advise failed")
    else read_window texts result.content

-- The optional arguments are null where they are `None`.
unfoldable pub next_window :
    PyText
    → Network
    → Value
    → Value
    → Value
    → Value
    → String
    → Value
    → Client
    → Asked Window × Client
unfolding advised
next_window texts network duration deadline earliest watts framework fingerprint client =
    let (result, client') =
      advise texts network duration deadline earliest watts framework fingerprint client in
    (advised texts result, client')

-- `seconds_until_start`, at an aware `now`; none is the `TypeError` of a naive start.
unfoldable pub until_start : Window → DateTime → Option ℕ
until_start window now = elim window.start [
  | none ↦ some 0
  | some start ↦ elim start.offset [
    | none ↦ none
    | some _ ↦ some (pos_part (instant start -ℤ instant now))
  ]
]

-- What `wait` returns, and for how long it slept, if it did.
pub record Waited : Type 0 where
  pub delay : ℤ
  pub slept : Option ℤ

abbrev pub min_ℤ : ℤ → ℤ → ℤ
min_ℤ a b = if leb_ℤ a b then a else b

abbrev pub capped : Option ℤ → ℤ → ℤ
capped none delay = delay
capped (some max_wait) delay = min_ℤ delay max_wait

unfoldable pub wait : PyText → Option ℤ → Window → DateTime → Asked Waited
unfolding until_start
wait texts max_wait window now =
    if not window.feasible
    then refused (
        str (
          text_append "cannot wait for an infeasible window: "
            (if truthy window.reason then texts.format window.reason else "no reason given")))
    else elim (until_start window now) [
      | none ↦ crashed
      | some until ↦
          let delay = capped max_wait (pos until) in
          answered
            (record { delay = delay; slept = if leb_ℤ delay (pos 0) then none else some delay })
    ]
