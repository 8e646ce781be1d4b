-- ===== src/Bench/Rouge/Examples.antt =====
-- Runs of the score of a summary.
use async_energy_controller.Base.{String, ◌≡◌, refl, List, [], ◌∷◌, Option, some, ◌^◌, ℕ}
use async_energy_controller.Base.Int.{pos}
use async_energy_controller.Value.{Float, finite}
use async_energy_controller.Samples.{texts}
use async_energy_controller.Executor.Schedule.{is_space}
use async_energy_controller.Bench.Rouge.{
  is_alphanum, is_token, tokenize, lcs_length, rouge_l_fmeasure,
}
use async_energy_controller.Bench.Rouge.Subsequence.{IsLongest, lcs_length-IsLongest}

abbrev one : Option Float
one = some (finite (pos (2 ^ 1074)))

tokens : tokenize texts " a-b,  c3! " ≡ "a" ∷ "b" ∷ "c3" ∷ []
unfolding tokenize is_alphanum is_space is_token
tokens = refl

same : rouge_l_fmeasure texts "the cat" "the, cat" ≡ one
unfolding rouge_l_fmeasure is_alphanum is_space is_token
same = refl

empty : rouge_l_fmeasure texts "the cat" "..." ≡ some (finite (pos 0))
unfolding rouge_l_fmeasure is_alphanum is_space is_token
empty = refl

longest : lcs_length ("a" ∷ "b" ∷ "c" ∷ []) ("b" ∷ "d" ∷ "c" ∷ []) ≡ some 2
unfolding lcs_length
longest = refl

abbrev first : List String
first = "a" ∷ "b" ∷ "c" ∷ []

abbrev second : List String
second = "b" ∷ "d" ∷ "c" ∷ []

lcs_length-IsLongest_example :
    (n : ℕ) × (lcs_length first second ≡ some n) × IsLongest first second n
lcs_length-IsLongest_example = lcs_length-IsLongest first second
