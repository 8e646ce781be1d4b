-- ===== src/Adapters/Http.antt =====
-- `AdapterRunResult`, `_HttpAdapter` and `_blocking_post` of `hmasync_controller/adapters.py`. The
-- HTTP client is the interface `Http`, on an environment that its calls change.
use Prim.Native.String.{◌++◌}
use async_energy_controller.Base.{ℕ, String, Option, none, some, str_eq, leb, if◌then◌else◌}
use async_energy_controller.Base.Int.{pos}
use async_energy_controller.Value.{
  Float, Value, null, bool, int, float, str, dict, Fields, get, PyText,
}
use async_energy_controller.Value.Number.{float_of_int}
use async_energy_controller.Api.Client.{rstrip_slash}
use async_energy_controller.Adapters.Try.{Try, done, refused, raised, ◌>>=◌}
use async_energy_controller.Adapters.Request.{timeout_of}

pub record AdapterRunResult : Type 0 where
  pub exit_status : String
  pub work_units : Value
  pub work_unit_kind : Value
  pub exit_code : Value
  pub output : Value
  pub detail : Value

abbrev pub failure : Value → Value → Value → AdapterRunResult
failure exit_code output detail = record {
  exit_status = "error";
  work_units = null;
  work_unit_kind = null;
  exit_code = exit_code;
  output = output;
  detail = detail;
}

-- An answer by its status, its text and what `json()` makes of it.
pub data Answer : Type 0 where
  answered : (status : ℕ) → (text : String) → (json : Option Value) → Answer
  timed_out : Answer
  broken : (exc : String) → Answer

pub record Http (E : Type 0) : Type 0 where
  pub post : String → Value → Option Float → Fields → E → Answer × E
  pub fetch : String → Float → Fields → E → Answer × E

pub record HttpAdapter : Type 0 where
  pub base_url : String
  pub timeout : Option Float
  pub preflight_timeout : Float

-- An empty or missing `base_url` is replaced by the default one.
unfoldable pub new_adapter : Option String → String → Option Float → Float → HttpAdapter
unfolding rstrip_slash
new_adapter base_url default_url timeout preflight_timeout =
    let given : String = elim base_url [
      | none ↦ default_url
      | some url ↦ if str_eq url "" then default_url else url
    ] in
    record {
      base_url = rstrip_slash given;
      timeout = timeout;
      preflight_timeout = preflight_timeout;
    }

abbrev pub override_or : String → Value → String
override_or default_url (str url) = if str_eq url "" then default_url else rstrip_slash url
override_or default_url _ = default_url

-- `_base`.
unfoldable pub base_of : HttpAdapter → Fields → String
unfolding rstrip_slash
base_of adapter request = override_or adapter.base_url (get "base_url" request)

abbrev pub or_default : Option Float → Option Float → Option Float
or_default none t = t
or_default (some x) t = some x

-- `_timeout_for`.
unfoldable pub timeout_for : PyText → HttpAdapter → Fields → Try (Option Float)
timeout_for texts adapter request = do
  declared ← timeout_of texts request
  done (or_default declared adapter.timeout)

-- `({}, error)` or `(data, None)`.
pub data Posted : Type 0 where
  received : Value → Posted
  failed : AdapterRunResult → Posted

-- `_safe_json`.
abbrev pub safe_json : String → Option Value → Value
safe_json text none = str text
safe_json text (some v) = v

abbrev pub parsed_or_failed : Option Value → Posted
parsed_or_failed none = failed (failure null null (str "response was not JSON"))
parsed_or_failed (some v) = received v

-- What `_blocking_post` makes of the answer.
unfoldable pub posted : PyText → Answer → Posted
posted texts timed_out = failed (failure null null (str "request timed out"))
posted texts (broken exc) = failed (failure null null (str ("network error: " ++ exc)))
posted texts (answered status text json) =
    if leb 400 status
    then failed (
        failure (int (pos status)) (safe_json text json)
          (str ("HTTP " ++ texts.format (int (pos status)))))
    else parsed_or_failed json

-- One call of `_blocking_post`.
pub record Post : Type 0 where
  pub url : String
  pub payload : Fields
  pub timeout : Option Float
  pub headers : Fields

-- A call before its timeout is known.
pub record Call : Type 0 where
  pub url : String
  pub payload : Fields
  pub headers : Fields

unfoldable pub timed_post : PyText → HttpAdapter → Fields → Try Call → Try Post
unfolding timeout_for
timed_post texts adapter request prepared = do
  call ← prepared
  timeout ← timeout_for texts adapter request
  done
      (record { url = call.url; payload = call.payload; timeout = timeout; headers = call.headers })

-- The run of an adapter that makes one call, or fails before it.
unfoldable pub post_run :
    {E : Type 0}
    → Http E
    → PyText
    → (Value → Try AdapterRunResult)
    → Try Post
    → E
    → Try AdapterRunResult × E
unfolding posted
post_run http texts finish (refused message) e = (refused message, e)
post_run http texts finish raised e = (raised, e)
post_run http texts finish (done call) e =
    let (answer, e') = http.post call.url (dict call.payload) call.timeout call.headers e in
    (elim (posted texts answer) [ failed r ↦ done r | received v ↦ finish v ], e')

-- `float(count) if isinstance(count, (int, float)) else None`, its `OverflowError` as an exception.
unfoldable pub count_units : Value → Try Value
count_units (bool b) = elim (float_of_int (pos (if b then 1 else 0))) [
  | none ↦ raised
  | some x ↦ done (float x)
]
count_units (int n) = elim (float_of_int n) [ none ↦ raised | some x ↦ done (float x) ]
count_units (float x) = done (float x)
count_units _ = done null

abbrev pub kind_of : Value → Value
kind_of null = null
kind_of v = str "tokens"

abbrev pub success : Value → Value → AdapterRunResult
success units output = record {
  exit_status = "success";
  work_units = units;
  work_unit_kind = kind_of units;
  exit_code = null;
  output = output;
  detail = null;
}
