-- ===== src/Adapters.antt =====
-- The pure helpers of `hmasync_controller/adapters.py`: which models an Ollama server has, the
-- text of chat messages, and the declared work of a request.
pub mod Try
pub mod Request
pub mod Http
pub mod Command
pub mod Ollama
pub mod OpenAi
pub mod Registry
pub mod Result
pub mod Fingerprint
pub mod Bounded
pub mod Examples
pub mod Runs
use Prim.Native.Char.{code}
use async_energy_controller.Base.{
  none, some, String, Bool, true, ◌||◌, List, [], ◌∷◌, ◌++◌, any, str_eq, str_eq_iff, ◌==◌, ◌≡◌,
  refl, arith, if◌then◌else◌, ap, if_elim, ◌∙◌, Option,
}
use async_energy_controller.Value.{Float, null, bool, int, float, truthy, PyText, Fields}
use async_energy_controller.Value.Number.{float_of_int}
use async_energy_controller.Base.Int.{pos}
use async_energy_controller.Value.{Value, str, list, dict, get, values_of, join}

-- `name.split(":")[0]`.
unfoldable pub base_name : String → String
base_name String.[] = ""
base_name (String.◌∷◌ c s) =
    let rest = base_name s in if code c == b':' then "" else String.◌∷◌ c rest

-- The name that a value is, if it is a text.
abbrev pub text_names : Value → List String
text_names (str s) = s ∷ []
text_names _ = []

unfoldable pub entry_names : Value → List String
entry_names (dict fs) = text_names (get "name" fs) ++ text_names (get "model" fs)
entry_names v = text_names v

unfoldable pub installed_names : List Value → List String
unfolding entry_names
installed_names [] = []
installed_names (v ∷ vs) = entry_names v ++ installed_names vs

unfoldable pub model_installed : String → List Value → Bool
unfolding installed_names base_name
model_installed model installed =
    let names = installed_names installed in
    let base = base_name model in
    any (λ n. str_eq n model) names || any (λ n. str_eq n base || str_eq (base_name n) base) names

abbrev pub part_texts : List Value → List String
part_texts [] = []
part_texts (dict fs ∷ vs) = text_names (get "text" fs) ++ part_texts vs
part_texts (_ ∷ vs) = part_texts vs

abbrev pub content_texts : Value → List String
content_texts (str s) = s ∷ []
content_texts (list vs) = part_texts (values_of vs)
content_texts _ = []

abbrev pub message_texts : List Value → List String
message_texts [] = []
message_texts (dict fs ∷ vs) = content_texts (get "content" fs) ++ message_texts vs
message_texts (_ ∷ vs) = message_texts vs

-- For messages that are a list.
unfoldable pub messages_text : List Value → String
unfolding join
messages_text messages = join "" (message_texts messages)

-- With the units, as a double; a kind that is not declared is "tokens".
abbrev pub with_kind : PyText → Fields → Float → Value × Value
with_kind texts request x =
    let kind = get "work_unit_kind" request in
    (float x, if truthy kind then str (texts.format kind) else str "tokens")

abbrev pub converted : PyText → Fields → Option Float → Option (Value × Value)
converted texts request none = none
converted texts request (some x) = some (with_kind texts request x)

-- With what is declared under "work_units".
unfoldable pub work_from : PyText → Fields → Value → Option (Value × Value)
unfolding truthy
work_from texts request (int n) = converted texts request (float_of_int n)
work_from texts request (bool b) = converted texts request (float_of_int (pos (if b then 1 else 0)))
work_from texts request (float x) = some (with_kind texts request x)
work_from texts request (str s) = elim (texts.parse_float s) [
  | none ↦ some (null, null)
  | some x ↦ some (with_kind texts request x)
]
work_from texts request _ = some (null, null)

-- The units and their kind, both null where none are declared. `none` is the `OverflowError` of
-- `float(raw)`.
unfoldable pub declared_work : PyText → Fields → Option (Value × Value)
unfolding work_from
declared_work texts request = work_from texts request (get "work_units" request)

base_name_again : (s : String) → base_name (base_name s) ≡ base_name s
unfolding base_name
base_name_again String.[] = refl
base_name_again (String.◌∷◌ c s) =
    if_elim (λ (t : String). base_name t ≡ t) (code c == b':') "" (String.◌∷◌ c (base_name s))
      (λ e. refl) (λ e. rw e (ap (λ (t : String). String.◌∷◌ c t) (base_name_again s)))

same_base :
    (n model : String) → (str_eq n model ≡ true) → str_eq (base_name n) (base_name model) ≡ true
same_base n model h =
    (str_eq_iff (base_name n) (base_name model)).1 (ap base_name ((str_eq_iff n model).0 h))

own_base :
    (n model : String)
    → (str_eq n (base_name model) ≡ true)
    → str_eq (base_name n) (base_name model) ≡ true
own_base n model h =
    (str_eq_iff (base_name n) (base_name model)).1
      (ap base_name ((str_eq_iff n (base_name model)).0 h) ∙ base_name_again model)

any-same :
    (model : String) (names : List String)
    → (any (λ n. str_eq n model) names
        || any (λ n. str_eq n (base_name model) || str_eq (base_name n) (base_name model)) names)
      ≡ any (λ n. str_eq (base_name n) (base_name model)) names
any-same model [] = refl
any-same model (n ∷ names) =
    ground (arith, any-same model names, same_base n model, own_base n model)

-- A model counts as installed exactly if some installed name agrees with it up to the first colon:
-- whether the tag after the colon is the same has no influence.
model_installed_lem :
    (model : String) (installed : List Value)
    → model_installed model installed
      ≡ any (λ n. str_eq (base_name n) (base_name model)) (installed_names installed)
unfolding model_installed
model_installed_lem model installed = any-same model (installed_names installed)
