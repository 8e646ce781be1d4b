-- ===== src/Bench/Tasks/Boxed.antt =====
-- The boxed answers of `hmasync_controller/bench/tasks/math500.py`: `extract_boxed_answers`. A position in
-- the text is the text from there on.
pub mod Nested
pub mod Found
pub mod Total
use Prim.Native.Char.{code, Char}
use async_energy_controller.Base.{
  ℕ, zero, suc, ◌+◌, String, Bool, Option, none, some, List, [], ◌∷◌, ◌==◌, if◌then◌else◌, ◌≡◌,
  text_length,
}
use async_energy_controller.Submission.Redact.{starts_with}

abbrev pub marker : String
marker = "\\boxed{"

abbrev pub is_open : Char → Bool
is_open c = code c == b'{'

abbrev pub is_close : Char → Bool
is_close c = code c == b'}'

-- `text[n:]`
abbrev pub text_from : ℕ → String → String
text_from zero s = s
text_from (suc n) String.[] = ""
text_from (suc n) (String.◌∷◌ c s) = text_from n s

-- `text.find(marker)`: the text behind the first marker, or none for -1.
unfoldable pub find_marker : String → Option String
unfolding starts_with
find_marker String.[] = none
find_marker (String.◌∷◌ c s) =
    let rest = find_marker s in
    if starts_with marker (String.◌∷◌ c s) then some (text_from 7 (String.◌∷◌ c s)) else rest

abbrev pub onto_payload : Char → Option (String × String) → Option (String × String)
onto_payload c none = none
onto_payload c (some (payload, rest)) = some (String.◌∷◌ c payload, rest)

-- The loop over the braces, at a depth of 1 + `depth`: the payload up to the brace that closes it, and
-- the text behind that; none where the text ends before.
unfoldable pub close : ℕ → String → Option (String × String)
close depth String.[] = none
close zero (String.◌∷◌ c s) =
    let deeper = onto_payload c (close 1 s) in
    let level = onto_payload c (close 0 s) in
    if is_open c then deeper else if is_close c then some ("", s) else level
close (suc depth) (String.◌∷◌ c s) =
    let deeper = onto_payload c (close (suc (suc depth)) s) in
    let level = onto_payload c (close (suc depth) s) in
    let higher = onto_payload c (close depth s) in
    if is_open c then deeper else if is_close c then higher else level

-- The loop over the markers; none where the fuel runs out.
unfoldable pub boxed_answers : ℕ → String → Option (List String)
unfolding find_marker close
boxed_answers zero text = none
boxed_answers (suc fuel) text = elim (find_marker text) [
  | none ↦ some []
  | some content ↦ elim (close 0 content) [
    | none ↦ some []
    | some (payload, rest) ↦ elim (boxed_answers fuel rest) [
      | none ↦ none
      | some payloads ↦ some (payload ∷ payloads)
    ]
  ]
]

unfoldable pub extract_boxed_answers : String → Option (List String)
unfolding boxed_answers
extract_boxed_answers text = boxed_answers (suc (text_length text)) text
