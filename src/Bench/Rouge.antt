-- ===== src/Bench/Rouge.antt =====
-- `hmasync_controller/bench/tasks/rouge_l.py`: the tokens of a text and the score of a summary.
pub mod Subsequence
pub mod Tokens
pub mod Score
pub mod Examples
use Prim.Native.Char.{code, Char}
use async_energy_controller.Base.{
  ℕ, suc, ◌+◌, ◌*◌, ◌/◌, ◌^◌, max, String, Bool, true, false, not, ◌&&◌, ◌||◌, Option, none, some,
  List, [], ◌∷◌, length, leb, str_eq, ◌==◌, if◌then◌else◌,
}
use async_energy_controller.Base.Int.{pos}
use async_energy_controller.Value.{Float, finite, PyText}
use async_energy_controller.Value.Number.{round_mantissa}
use async_energy_controller.Executor.Schedule.{is_space}

abbrev pub space : Char
space = " "

-- `[a-z0-9]`.
unfoldable pub is_alphanum : Char → Bool
is_alphanum c = (leb b'a' (code c) && leb (code c) b'z') || (leb b'0' (code c) && leb (code c) b'9')

-- `_NON_ALPHANUM_RE.sub(" ", text)`: each run of other characters becomes one space. `in_run` says
-- that the character before was one of them.
unfoldable pub blank_runs : Bool → String → String
blank_runs in_run String.[] = ""
blank_runs in_run (String.◌∷◌ c s) =
    let rest = blank_runs (not (is_alphanum c)) s in
    if is_alphanum c then String.◌∷◌ c rest else if in_run then rest else String.◌∷◌ space rest

abbrev pub onto_first : Char → List String → List String
onto_first c [] = String.◌∷◌ c "" ∷ []
onto_first c (t ∷ ts) = String.◌∷◌ c t ∷ ts

-- `_SPACES_RE.split(text)`: the pieces between the runs of white space, also the empty ones at the
-- ends. `in_run` says that the character before was white space.
unfoldable pub split_spaces : Bool → String → List String
split_spaces in_run String.[] = "" ∷ []
split_spaces in_run (String.◌∷◌ c s) =
    let rest = split_spaces (is_space (code c)) s in
    if is_space (code c) then (if in_run then rest else "" ∷ rest) else onto_first c rest

abbrev pub all_alphanum : String → Bool
all_alphanum String.[] = true
all_alphanum (String.◌∷◌ c s) = is_alphanum c && all_alphanum s

-- `_VALID_TOKEN_RE.match(t)`, for a piece, in which there is no line end.
unfoldable pub is_token : String → Bool
is_token String.[] = false
is_token (String.◌∷◌ c t) = all_alphanum (String.◌∷◌ c t)

unfoldable pub valid_tokens : List String → List String
valid_tokens [] = []
valid_tokens (t ∷ ts) = let rest = valid_tokens ts in if is_token t then t ∷ rest else rest

unfoldable pub tokenize : PyText → String → List String
unfolding blank_runs split_spaces valid_tokens
tokenize texts text = valid_tokens (split_spaces false (blank_runs false (texts.lower text)))

-- The inner loop: the rest of the row `current` behind the cell `left`, from `previous` at the
-- place of `left` on. A cell is read from `previous[j - 1]`, and else from `previous[j]` and
-- `left`, which is `current[j - 1]`. `none` is the `IndexError` of a row that is too short.
unfoldable pub fill_row : String → List ℕ → ℕ → List String → Option (List ℕ)
fill_row target_token previous left [] = some []
fill_row target_token [] left (prediction_token ∷ tokens) = none
fill_row target_token (diagonal ∷ []) left (prediction_token ∷ tokens) = none
fill_row target_token (diagonal ∷ above ∷ previous) left (prediction_token ∷ tokens) =
    let cell = if str_eq target_token prediction_token then diagonal + 1 else max above left in
    elim (fill_row target_token (above ∷ previous) cell tokens) [
      | none ↦ none
      | some cells ↦ some (cell ∷ cells)
    ]

-- The outer loop: from the row `previous` over the remaining target tokens to the last row.
unfoldable pub fill_rows : List String → List String → List ℕ → Option (List ℕ)
unfolding fill_row
fill_rows [] prediction_tokens previous = some previous
fill_rows (target_token ∷ tokens) prediction_tokens previous =
    elim (fill_row target_token previous 0 prediction_tokens) [
      | none ↦ none
      | some cells ↦ fill_rows tokens prediction_tokens (0 ∷ cells)
    ]

abbrev pub zeros : List String → List ℕ
zeros [] = 0 ∷ []
zeros (t ∷ ts) = 0 ∷ zeros ts

-- `row[-1]`.
abbrev pub last : List ℕ → Option ℕ
last [] = none
last (n ∷ []) = some n
last (n ∷ m ∷ ns) = last (m ∷ ns)

abbrev pub is_empty : List String → Bool
is_empty [] = true
is_empty (t ∷ ts) = false

unfoldable pub lcs_length : List String → List String → Option ℕ
unfolding fill_rows
lcs_length target_tokens prediction_tokens =
    if is_empty target_tokens || is_empty prediction_tokens
    then some 0
    else elim (fill_rows target_tokens prediction_tokens (zeros prediction_tokens)) [
      | none ↦ none
      | some row ↦ last row
    ]

-- Products and quotients of doubles, in units of 2 ^ -1074. The numbers below lie between 2 ^ -400
-- and 2 for texts with less than 2 ^ 400 tokens; there a product is whole in these units, and a
-- quotient may be cut to a whole number before it is rounded, since it is never that near to the
-- middle of two doubles without being it.
abbrev pub float_product : ℕ → ℕ → ℕ
float_product x y = round_mantissa (x * y / 2 ^ 1074)

-- Also of two integers.
abbrev pub float_quotient : ℕ → ℕ → ℕ
float_quotient x y = round_mantissa (x * 2 ^ 1074 / y)

abbrev pub float_sum : ℕ → ℕ → ℕ
float_sum x y = round_mantissa (x + y)

unfoldable pub fmeasure : ℕ → ℕ → ℕ → ℕ
unfolding round_mantissa
fmeasure lcs predicted targets =
    let precision = float_quotient lcs predicted in
    let recall = float_quotient lcs targets in
    if float_sum precision recall == 0
    then 0
    else float_quotient (float_product (float_product (2 * 2 ^ 1074) precision) recall)
        (float_sum precision recall)

-- Of the target tokens and the prediction tokens.
unfoldable pub score : List String → List String → Option Float
unfolding lcs_length fmeasure
score target_tokens prediction_tokens =
    if is_empty target_tokens || is_empty prediction_tokens
    then some (finite (pos 0))
    else elim (lcs_length target_tokens prediction_tokens) [
      | none ↦ none
      | some lcs ↦
          some (finite (pos (fmeasure lcs (length prediction_tokens) (length target_tokens))))
    ]

unfoldable pub rouge_l_fmeasure : PyText → String → String → Option Float
unfolding tokenize score
rouge_l_fmeasure texts target prediction = score (tokenize texts target) (tokenize texts prediction)
