-- ===== src/Adapters/Request.antt =====
-- What the adapters of `hmasync_controller/adapters.py` read from a request: its fields, its prompt,
-- its timeout and its sizes.
use Prim.Native.String.{◌++◌}
use async_energy_controller.Base.{
  ℕ, String, Bool, true, false, ◌||◌, Option, none, some, List, [], ◌∷◌, str_eq, leb, if◌then◌else◌,
  text_length,
}
use async_energy_controller.Base.Int.{ℤ, pos, negsuc}
use async_energy_controller.Value.{
  Float, infinite, Value, null, int, float, str, list, tuple, dict, Fields, end, field, values_of,
  get, truthy, PyText,
}
use async_energy_controller.Executor.Schedule.{int_of, text_or}
use async_energy_controller.Executor.Run.{declared_timeout}
use async_energy_controller.Adapters.{messages_text, declared_work}
use async_energy_controller.Adapters.Try.{Try, done, refused, raised}

-- What reading a file as text comes to.
pub data FileRead : Type 0 where
  contents : String → FileRead
  unreadable : String → FileRead
  undecodable : FileRead

-- The characters of a text.
abbrev pub characters : String → List Value
characters String.[] = []
characters (String.◌∷◌ c s) = str (String.◌∷◌ c String.[]) ∷ characters s

abbrev pub names_of : Fields → List Value
names_of end = []
names_of (field k v fs) = str k ∷ names_of fs

-- The values that iterating over `value or []` gives; `none` is its `TypeError`.
unfoldable pub iteration : Value → Option (List Value)
unfolding truthy
iteration (list vs) = some (values_of vs)
iteration (tuple vs) = some (values_of vs)
iteration (str s) = some (characters s)
iteration (dict fs) = some (names_of fs)
iteration v = if truthy v then none else some []

-- What the adapters use of the system and of Python's library: `Path(path).read_text()`,
-- `math.floor(math.log2(n))`, `json.dumps` with sorted keys, `hashlib.sha256`, `shlex.split`
-- (`none` for its `ValueError`),
-- and `json.loads` of `json.dumps` with sorted keys and `default=str`.
pub record Platform : Type 0 where
  pub read_text : String → FileRead
  pub floor_log2 : ℕ → ℕ
  pub dumps_sorted : Fields → String
  pub sha256 : String → String
  pub split_command : String → Option (List String)
  pub environ : Fields
  pub reload_sorted : Fields → Value

-- `value in (None, "")`.
abbrev pub is_blank : Value → Bool
is_blank null = true
is_blank (str s) = str_eq s ""
is_blank _ = false

unfoldable pub require : Fields → String → Try Value
require request key =
    if is_blank (get key request)
    then refused ("request is missing required field '" ++ key ++ "'")
    else done (get key request)

-- `declared_timeout`, its `OverflowError` as an exception.
abbrev pub timeout_of : PyText → Fields → Try (Option Float)
timeout_of texts request = elim (declared_timeout texts request) [ none ↦ raised | some t ↦ done t ]

module _ (texts : PyText) (platform : Platform) where
  abbrev pub file_text : String → FileRead → Try String
  file_text path (contents s) = done s
  file_text path (unreadable exc) =
      refused ("prompt_file " ++ texts.repr (str path) ++ " could not be read: " ++ exc)
  file_text path undecodable = raised

  abbrev pub prompt_from : Value → Value → Try String
  prompt_from prompt (str path) =
      if str_eq path "" then done (text_or "" prompt) else file_text path (platform.read_text path)
  prompt_from prompt path = if truthy path then raised else done (text_or "" prompt)

  -- An inline prompt that is a text and not empty wins.
  unfoldable pub resolve_prompt : Fields → Try String
  unfolding truthy
  resolve_prompt request =
      let inline = text_or "" (get "prompt" request) in
      if str_eq inline ""
      then prompt_from (get "prompt" request) (get "prompt_file" request)
      else done inline

  -- The length of a prompt that may be unreadable.
  abbrev pub length_or_zero : Try String → Try ℕ
  length_or_zero (done s) = done (text_length s)
  length_or_zero (refused message) = done 0
  length_or_zero raised = raised

  abbrev pub messages_length : Option (List Value) → Try ℕ
  messages_length none = raised
  messages_length (some messages) = done (text_length (messages_text messages))

  unfoldable pub prompt_length : Fields → Try ℕ
  unfolding resolve_prompt iteration
  prompt_length request =
      if truthy (get "prompt" request) || truthy (get "prompt_file" request)
      then length_or_zero (resolve_prompt request)
      else messages_length (iteration (get "messages" request))

  abbrev pub bucket_of : Option ℤ → Value
  bucket_of none = null
  bucket_of (some (negsuc n)) = int (pos 0)
  bucket_of (some (pos n)) = int (pos (if leb n 1 then 0 else platform.floor_log2 n))

  -- `int` of an infinity raises an `OverflowError`, which is not caught.
  unfoldable pub bucket : Value → Try Value
  unfolding int_of
  bucket null = done null
  bucket (float (infinite s)) = raised
  bucket v = done (bucket_of (int_of texts v))

  unfoldable pub stable_hash : Fields → String
  stable_hash features = platform.sha256 (platform.dumps_sorted features)

  -- `_declared_work`, its `OverflowError` as an exception.
  abbrev pub work_of : Fields → Try (Value × Value)
  work_of request = elim (declared_work texts request) [ none ↦ raised | some w ↦ done w ]
