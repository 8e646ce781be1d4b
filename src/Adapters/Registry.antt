-- ===== src/Adapters/Registry.antt =====
-- The registry of `hmasync_controller/adapters.py`: `list_frameworks` and `get_adapter`.
use Prim.Native.String.{◌++◌}
use async_energy_controller.Base.{String, List, [], ◌∷◌, str_eq, if◌then◌else◌, Option, none, some}
use async_energy_controller.Value.{Value, str, list, cons, nil, PyText}
use async_energy_controller.Executor.Schedule.{lstrip, rstrip}
use async_energy_controller.Adapters.Try.{Try, done, refused}

-- The registered classes.
pub data Framework : Type 0 where
  command ollama openai : Framework

-- `cls.FRAMEWORK`.
abbrev pub name_of : Framework → String
name_of command = "command"
name_of ollama = "ollama"
name_of openai = "openai"

abbrev pub list_frameworks : List String
list_frameworks = "command" ∷ "ollama" ∷ "openai" ∷ []

unfoldable pub alias_of : String → String
alias_of key =
    if str_eq key "cmd"
    then "command"
    else if str_eq key "shell"
    then "command"
    else if str_eq key "openai-compat"
    then "openai"
    else if str_eq key "openai_compatible"
    then "openai"
    else if str_eq key "openai-compatible"
    then "openai"
    else key

unfoldable pub registered : String → Option Framework
registered key =
    if str_eq key "command"
    then some command
    else if str_eq key "ollama"
    then some ollama
    else if str_eq key "openai"
    then some openai
    else none

abbrev pub framework_texts : Value
framework_texts = list (cons (str "command") (cons (str "ollama") (cons (str "openai") nil)))

-- The class that `get_adapter` constructs, for a framework that is a text.
unfoldable pub get_adapter : PyText → String → Try Framework
unfolding alias_of registered lstrip rstrip
get_adapter texts framework =
    let key = alias_of (texts.lower (rstrip (lstrip framework))) in
    if str_eq framework ""
    then refused (
        "framework must be one of "
        ++ texts.repr framework_texts
        ++ ", got "
        ++ texts.repr (str framework))
    else elim (registered key) [
      | none ↦ refused (
          "unknown framework "
          ++ texts.repr (str framework)
          ++ "; registered: "
          ++ texts.repr framework_texts)
      | some c ↦ done c
    ]
