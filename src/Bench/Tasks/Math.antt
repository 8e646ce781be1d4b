-- ===== src/Bench/Tasks/Math.antt =====
-- The grader of `hmasync_controller/bench/tasks/math500.py`, with the helpers of
-- `hmasync_controller/bench/tasks/base.py` for numbers. `findall` is Python's `re.findall` with the pattern
-- of a number.
pub mod Score
use Prim.Native.Char.{code, Char}
use async_energy_controller.Base.{
  ℕ, zero, suc, ◌-◌, String, Bool, true, false, ◌&&◌, ◌||◌, Option, none, some, List, [], ◌∷◌,
  str_eq, ◌==◌, if◌then◌else◌, text_length,
}
use async_energy_controller.Base.Int.{pos, negsuc, ℤ}
use async_energy_controller.Value.{Float, finite, infinite, nan, PyText}
use async_energy_controller.Value.Double.{
  add, is_less, true_quotient, magnitude, subtract, absolute,
}
use async_energy_controller.Executor.Schedule.{is_space, lstrip, rstrip}
use async_energy_controller.Submission.Redact.{starts_with}
use async_energy_controller.Bench.Tasks.Boxed.{extract_boxed_answers}

-- `text.replace(old, "")`, for an `old` that is not empty. `skip` is how much of one is left to drop.
unfoldable pub remove_all : String → ℕ → String → String
unfolding starts_with
remove_all old skip String.[] = ""
remove_all old (suc skip) (String.◌∷◌ c s) = remove_all old skip s
remove_all old zero (String.◌∷◌ c s) =
    let gone = remove_all old (text_length old - 1) s in
    let kept = String.◌∷◌ c (remove_all old zero s) in
    if starts_with old (String.◌∷◌ c s) then gone else kept

-- `_WHITESPACE_RE.sub("", s)`
unfoldable pub without_spaces : String → String
unfolding is_space
without_spaces String.[] = ""
without_spaces (String.◌∷◌ c s) =
    let rest = without_spaces s in if is_space (code c) then rest else String.◌∷◌ c rest

-- A trailing ".0" is dropped.
unfoldable pub without_point_zero : String → String
without_point_zero String.[] = ""
without_point_zero (String.◌∷◌ c s) =
    let rest = without_point_zero s in
    if str_eq (String.◌∷◌ c s) ".0" then "" else String.◌∷◌ c rest

unfoldable pub normalize_math_answer : String → String
unfolding lstrip rstrip remove_all without_spaces without_point_zero
normalize_math_answer raw =
    let s = rstrip (lstrip raw) in
    let s' = remove_all "\\right" 0 (remove_all "\\left" 0 s) in
    without_point_zero (without_spaces (remove_all "\\!" 0 s'))

-- `abs(x - y) < 1e-4`
unfoldable pub is_near : Float → Float → Bool
unfolding subtract is_less true_quotient
is_near x y = is_less (absolute (subtract x y)) (true_quotient 1 10_000)

unfoldable pub numbers_equal : PyText → Option String → Option String → Bool
unfolding is_near
numbers_equal texts (some a) (some b) = near (texts.parse_float a) (texts.parse_float b)
  where
    near : Option Float → Option Float → Bool
    near (some x) (some y) = is_near x y
    near _ _ = false
numbers_equal texts _ _ = false

abbrev pub final : String → List String → String
final s [] = s
final s (t ∷ ts) = final t ts

-- `text.replace(",", "").replace("$", "")`, and of the last number in it, the trailing points.
unfoldable pub rstrip_points : String → String
rstrip_points String.[] = ""
rstrip_points (String.◌∷◌ c s) =
    let rest = rstrip_points s in
    if str_eq rest "" && (code c == b'.') then "" else String.◌∷◌ c rest

module _ (texts : PyText) (findall : String → List String) where
  abbrev pub last_of : List String → Option String
  last_of [] = none
  last_of (n ∷ ns) = some (rstrip_points (final n ns))

  unfoldable pub extract_last_number : String → Option String
  unfolding remove_all rstrip_points
  extract_last_number text = last_of (findall (remove_all "$" 0 (remove_all "," 0 text)))

  -- The answer that counts: that of the last box, or without a box the last number.
  unfoldable pub score_answers : String → String → List String → Bool
  unfolding normalize_math_answer extract_last_number
  score_answers completion target_norm [] =
      numbers_equal texts (extract_last_number completion) (some target_norm)
  score_answers completion target_norm (p ∷ ps) =
      let predicted_norm = normalize_math_answer (final p ps) in
      str_eq predicted_norm target_norm
      || numbers_equal texts (some predicted_norm) (some target_norm)

  -- Of a completion and the target of an item; none where the fuel of the boxes would run out.
  unfoldable pub score_completion : String → String → Option Bool
  score_completion completion target = elim (extract_boxed_answers completion) [
    | none ↦ none
    | some boxed ↦ some (score_answers completion (normalize_math_answer target) boxed)
  ]
