-- ===== src/Value.antt =====
-- The Python values that the controller builds, sends and receives: what `json` reads and writes,
-- with the two kinds of object that `hmasync_controller/apiclient.py` turns into such values.
pub mod Encode
pub mod Number
pub mod Double
pub mod Exact
pub mod Equal
pub mod Dict
use Prim.Native.String.{◌++◌ as text_append}
use async_energy_controller.Base.{
  zero, String, Bool, true, false, not, ◌||◌, Option, none, some, List, [], ◌∷◌, str_eq,
  if◌then◌else◌, ◌≡◌,
}
use async_energy_controller.Base.Int.{ℤ, pos}

-- A double. A finite one is a whole multiple of 2 ^ -1074, and `finite n` is n * 2 ^ -1074.
pub data Float : Type 0 where
  finite : ℤ → Float
  infinite : (negative : Bool) → Float
  nan : Float

-- A `datetime`: microseconds of its own clock since the year 1, and its distance from UTC in
-- microseconds. It is naive where it has no distance.
pub record DateTime : Type 0 where
  pub clock : ℤ
  pub offset : Option ℤ

-- `model` is a pydantic model, by the fields that its `model_dump` returns.
mutual
  pub data Value : Type 0 where
    null : Value
    bool : Bool → Value
    int : ℤ → Value
    float : Float → Value
    str : String → Value
    datetime : DateTime → Value
    list : Items → Value
    tuple : Items → Value
    dict : Fields → Value
    model : Fields → Value

  pub data Items : Type 0 where
    nil : Items
    cons : Value → Items → Items

  pub data Fields : Type 0 where
    end : Fields
    field : String → Value → Fields → Fields

-- `dict.get(key)`, with `None` for a missing key.
unfoldable pub get : String → Fields → Value
get k end = null
get k (field j v fs) = if str_eq j k then v else get k fs

-- `key in dict`.
unfoldable pub has_key : String → Fields → Bool
has_key k end = false
has_key k (field j v fs) = str_eq j k || has_key k fs

-- `d[key] = value`: the place of an old key is kept.
unfoldable pub put : String → Value → Fields → Fields
put k v end = field k v end
put k v (field j w fs) = if str_eq j k then field j v fs else field j w (put k v fs)

abbrev pub items_of : List Value → Items
items_of [] = nil
items_of (v ∷ vs) = cons v (items_of vs)

abbrev pub values_of : Items → List Value
values_of nil = []
values_of (cons v vs) = v ∷ values_of vs

-- `bool(value)`.
unfoldable pub truthy : Value → Bool
truthy null = false
truthy (bool b) = b
truthy (int (pos zero)) = false
truthy (float (finite (pos zero))) = false
truthy (str s) = not (str_eq s "")
truthy (list nil) = false
truthy (tuple nil) = false
truthy (dict end) = false
truthy _ = true

-- `value if isinstance(value, str) else None`, for a value that the caller uses as a text.
abbrev pub text? : Value → Option String
text? (str s) = some s
text? _ = none

abbrev pub IsNull : Value → Type 0
IsNull v = v ≡ null

abbrev pub is_null : Value → Bool
is_null null = true
is_null _ = false

-- `separator.join(texts)`.
unfoldable pub join : String → List String → String
join separator [] = ""
join separator (s ∷ []) = s
join separator (s ∷ t ∷ ts) = text_append s (text_append separator (join separator (t ∷ ts)))

-- What Python's own library writes and reads as text: `datetime.isoformat`,
-- `datetime.fromisoformat` (`none` for its `ValueError`), the `str` of an f-string, `int` and
-- `float` of a text (`none` for their `ValueError`), `str.lower`
-- and `repr`; and what SQLite holds of a number or a time in a column of texts.
pub record PyText : Type 0 where
  pub isoformat : DateTime → String
  pub fromisoformat : String → Option DateTime
  pub format : Value → String
  pub parse_int : String → Option ℤ
  pub parse_float : String → Option Float
  pub lower : String → String
  pub repr : Value → String
  pub column_text : Value → String
