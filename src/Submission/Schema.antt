-- ===== src/Submission/Schema.antt =====
-- `validate_bundle` of `hmasync_controller/bench/submission.py`: the walk over a bundle and the
-- schema. Bundle and schema are what `json.loads` gives, and the schema has its constructs in the
-- shape that JSON Schema asks for; where it has not, the walk takes the construct for empty.
use Prim.Native.String.{◌++◌ as text_append}
use Prim.Native.Char.{code}
use async_energy_controller.Base.{
  ◌++◌, ℕ, suc, String, Bool, true, false, not, ◌&&◌, ◌||◌, Option, none, some, List, [], ◌∷◌, any,
  str_eq, ◌==◌, if◌then◌else◌,
}
use async_energy_controller.Base.Int.{pos}
use async_energy_controller.Value.Equal.{py_eq}
use async_energy_controller.Value.{
  Value, null, bool, int, float, str, datetime, list, tuple, dict, model, Items, nil, cons, Fields,
  end, field, get, has_key, is_null, values_of, items_of, PyText,
}

abbrev is_bool : Value → Bool
is_bool (bool b) = true
is_bool _ = false

abbrev is_int : Value → Bool
is_int (int n) = true
is_int _ = false

abbrev is_float : Value → Bool
is_float (float x) = true
is_float _ = false

abbrev is_str : Value → Bool
is_str (str s) = true
is_str _ = false

abbrev is_list : Value → Bool
is_list (list vs) = true
is_list _ = false

abbrev is_dict : Value → Bool
is_dict (dict fs) = true
is_dict _ = false

unfoldable pub type_matches : Value → String → Bool
type_matches v expected =
    if str_eq expected "null"
    then is_null v
    else if str_eq expected "integer"
    then is_int v
    else if str_eq expected "number"
    then is_int v || is_float v
    else if str_eq expected "object"
    then is_dict v
    else if str_eq expected "array"
    then is_list v
    else if str_eq expected "string"
    then is_str v
    else if str_eq expected "boolean"
    then is_bool v
    else false

unfoldable pub json_type : Value → String
json_type null = "null"
json_type (bool b) = "boolean"
json_type (int n) = "integer"
json_type (float x) = "number"
json_type (str s) = "string"
json_type (list vs) = "array"
json_type (dict fs) = "object"
json_type (datetime t) = "datetime"
json_type (tuple vs) = "tuple"
json_type (model fs) = "BaseModel"

unfoldable pub has_slash : String → Bool
has_slash String.[] = false
has_slash (String.◌∷◌ c s) = (code c == b'/') || has_slash s

-- `ref.rsplit("/", 1)[-1]`.
unfoldable pub last_part : String → String
unfolding has_slash
last_part String.[] = ""
last_part (String.◌∷◌ c s) =
    let rest = last_part s in
    if has_slash s then rest else (if code c == b'/' then s else String.◌∷◌ c s)

abbrev pub object_of : Value → Fields
object_of (dict fs) = fs
object_of _ = end

abbrev pub elements : Value → List Value
elements (list vs) = values_of vs
elements _ = []

abbrev pub name_in : Value → String
name_in (str s) = s
name_in _ = ""

-- `none`: the `KeyError` of a reference that is not there.
unfoldable pub resolve_ref : String → Fields → Option Fields
unfolding last_part
resolve_ref ref defs =
    if has_key (last_part ref) defs then some (object_of (get (last_part ref) defs)) else none

unfoldable pub resolved : Fields → Fields → Option Fields
unfolding resolve_ref
resolved node defs =
    if has_key "$ref" node then resolve_ref (name_in (get "$ref" node)) defs else some node

abbrev expected_types : Value → List Value
expected_types (list vs) = values_of vs
expected_types t = t ∷ []

abbrev pub Errors : Type 0
Errors = Option (List String)

abbrev pub both : Errors → Errors → Errors
both none e = none
both (some es) none = none
both (some es) (some fs) = some (es ++ fs)

abbrev pub words : List String → String
words [] = ""
words (s ∷ ss) = text_append s (words ss)

-- What validates one value: from the node of its schema and its path.
abbrev pub Check : Type 0
Check = Fields → String → Errors

abbrev pub find : String → List (String × Check) → Option Check
find k [] = none
find k ((j, check) ∷ rest) = if str_eq j k then some check else find k rest

abbrev pub const_fails : Value → Fields → Bool
const_fails v node = has_key "const" node && not (py_eq v (get "const" node))

abbrev pub enum_fails : Value → Fields → Bool
enum_fails v node = has_key "enum" node && not (any (λ w. py_eq v w) (elements (get "enum" node)))

abbrev pub type_fails : Value → Fields → Bool
type_fails v node =
    not (is_null (get "type" node))
    && not (any (λ t. type_matches v (name_in t)) (expected_types (get "type" node)))

-- `errors.append(message); return` where a test fails.
unfoldable pub refuse_if : Bool → String → Errors → Errors
refuse_if true message rest = some (message ∷ [])
refuse_if false message rest = rest

-- A property that the instance does not have is not looked at.
abbrev pub run_check : Option Check → Check
run_check none node path = some []
run_check (some check) node path = check node path

module _ (texts : PyText) (defs : Fields) where
  open texts use {repr, format}

  abbrev pub required_errors : Fields → String → List Value → List String
  required_errors fs path [] = []
  required_errors fs path (k ∷ ks) =
      let rest = required_errors fs path ks in
      if has_key (name_in k) fs
      then rest
      else words (path ∷ ": missing required property " ∷ repr k ∷ []) ∷ rest

  abbrev pub unexpected_errors : Fields → String → Fields → List String
  unexpected_errors properties path end = []
  unexpected_errors properties path (field k v fs) =
      let rest = unexpected_errors properties path fs in
      if has_key k properties
      then rest
      else words (path ∷ ": unexpected property " ∷ repr (str k) ∷ []) ∷ rest

  -- The loop over the properties that the instance has.
  unfoldable pub property_errors : List (String × Check) → String → Fields → Errors
  property_errors checks path end = some []
  property_errors checks path (field k sub more) =
      let here = run_check (find k checks) (object_of sub) (words (path ∷ "." ∷ k ∷ [])) in
      both here (property_errors checks path more)

  abbrev pub closed : Fields → Bool
  closed node = elim (get "additionalProperties" node) [ bool false ↦ true | _ ↦ false ]

  unfoldable pub object_errors : Fields → List (String × Check) → String → Fields → Errors
  unfolding property_errors
  object_errors fs checks path node =
      let properties = object_of (get "properties" node) in
      let missing = required_errors fs path (elements (get "required" node)) in
      let unexpected : List String =
        if closed node then unexpected_errors properties path fs else [] in
      if has_key "properties" node
      then both (some missing) (both (some unexpected) (property_errors checks path properties))
      else some []

  unfoldable pub item_errors : List Check → ℕ → String → Fields → Errors
  item_errors [] i path items = some []
  item_errors (check ∷ checks) i path items =
      both (check items (words (path ∷ "[" ∷ format (int (pos i)) ∷ "]" ∷ [])))
        (item_errors checks (suc i) path items)

  unfoldable pub list_errors : List Check → String → Fields → Errors
  unfolding item_errors
  list_errors checks path node =
      if has_key "items" node
      then item_errors checks 0 path (object_of (get "items" node))
      else some []

  abbrev pub const_message : Value → String → Fields → String
  const_message v path node =
      words (path ∷ ": expected " ∷ repr (get "const" node) ∷ ", got " ∷ repr v ∷ [])

  abbrev pub enum_message : Value → String → Fields → String
  enum_message v path node =
      words (path ∷ ": " ∷ repr v ∷ " is not one of " ∷ repr (get "enum" node) ∷ [])

  abbrev pub type_message : Value → String → Fields → String
  type_message v path node = words (
      path
      ∷ ": expected type "
      ∷ repr (list (items_of (expected_types (get "type" node))))
      ∷ ", got "
      ∷ repr (str (json_type v))
      ∷ [])

  -- The tests of one value against its node, and then those of its parts.
  unfoldable pub check_node : Value → String → (Fields → Errors) → Option Fields → Errors
  unfolding py_eq type_matches json_type refuse_if
  check_node v path parts none = none
  check_node v path parts (some node) = refuse_if (const_fails v node) (const_message v path node) (
      refuse_if (enum_fails v node) (enum_message v path node)
        (refuse_if (type_fails v node) (type_message v path node) (parts node)))

  unfoldable mutual
    unfolding check_node object_errors list_errors resolved

    -- `_validate`, with the errors that it adds as its result.
    pub validate : Value → Fields → String → Errors
    validate (dict fs) node path =
        check_node (dict fs) path (object_errors fs (field_checks fs) path) (resolved node defs)
    validate (list vs) node path =
        check_node (list vs) path (list_errors (item_checks vs) path) (resolved node defs)
    validate v node path = check_node v path (λ n. some []) (resolved node defs)

    pub field_checks : Fields → List (String × Check)
    field_checks end = []
    field_checks (field k v fs) = (k, λ node path. validate v node path) ∷ field_checks fs

    pub item_checks : Items → List Check
    item_checks nil = []
    item_checks (cons v vs) = (λ node path. validate v node path) ∷ item_checks vs

-- `validate_bundle` with the schema given. `none`: a reference of the schema that is not there.
unfoldable pub validate_bundle : PyText → Fields → Value → Errors
unfolding validate
validate_bundle texts schema bundle =
    validate texts (object_of (get "$defs" schema)) bundle schema "$"
