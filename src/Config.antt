-- ===== src/Config.antt =====
-- `resolve_controller_id` and `set_bench_optin` of `hmasync_controller/config.py`.
pub mod Upsert
pub mod Examples
use Prim.Native.Char.{code}
use Prim.Native.String.{◌++◌ as text_append}
use async_energy_controller.Base.{
  ◌++◌, String, Bool, true, false, Option, none, some, List, [], ◌∷◌, str_eq, ◌==◌, if◌then◌else◌,
}
use async_energy_controller.Value.{join}
use async_energy_controller.Executor.Schedule.{lstrip, rstrip}

-- `hostname` is what `socket.gethostname` returns.
unfoldable pub resolve_controller_id : Option String → String → String
resolve_controller_id configured hostname =
    let fallback : String = if str_eq hostname "" then "hm-async-controller" else hostname in
    elim configured [ none ↦ fallback | some s ↦ if str_eq s "" then fallback else s ]

-- `line.split("=", 1)[0] if "=" in line else None`.
unfoldable pub before_equals : String → Option String
before_equals String.[] = none
before_equals (String.◌∷◌ c s) =
    let rest = before_equals s in
    if code c == b'=' then some "" else elim rest [ none ↦ none | some t ↦ some (String.◌∷◌ c t) ]

-- Whether a line sets BENCH_OPTIN.
unfoldable pub sets_optin : String → Bool
unfolding before_equals lstrip rstrip
sets_optin line = elim (before_equals line) [
  | none ↦ false
  | some key ↦ str_eq (rstrip (lstrip key)) "BENCH_OPTIN"
]

abbrev pub optin_line : Bool → String
optin_line true = "BENCH_OPTIN=true"
optin_line false = "BENCH_OPTIN=false"

-- The loop over the lines: what it puts out, and whether it found the line.
unfoldable pub replace_optin : String → List String → List String × Bool
replace_optin new_line [] = ([], false)
replace_optin new_line (line ∷ lines) =
    let (out, updated) = replace_optin new_line lines in
    if sets_optin line then (new_line ∷ out, true) else (line ∷ out, updated)

unfoldable pub upsert_optin : Bool → List String → List String
unfolding replace_optin
upsert_optin value lines =
    let (out, updated) = replace_optin (optin_line value) lines in
    if updated then out else out ++ optin_line value ∷ []

-- The text that replaces the file, from the text of the file, if there is one. `splitlines` is
-- `str.splitlines`.
unfoldable pub set_bench_optin : (String → List String) → Bool → Option String → String
unfolding upsert_optin join
set_bench_optin splitlines value file =
    let lines : List String = elim file [ none ↦ [] | some text ↦ splitlines text ] in
    text_append (join "\n" (upsert_optin value lines)) "\n"
