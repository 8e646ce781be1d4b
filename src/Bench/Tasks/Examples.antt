-- ===== src/Bench/Tasks/Examples.antt =====
-- Runs of the graders.
use async_energy_controller.Base.{
  ℕ, ◌<◌, All, length, arith, String, true, ◌≡◌, refl, some, List, [], ◌∷◌,
}
use async_energy_controller.Samples.{texts}
use async_energy_controller.Bench.Tasks.Boxed.{extract_boxed_answers}
use async_energy_controller.Bench.Tasks.Boxed.Found.{Segment}
use async_energy_controller.Bench.Tasks.Boxed.Total.{extract_boxed_answers_total}
use Prim.Native.String.{◌++◌}
use async_energy_controller.Bench.Tasks.Items.{
  GpqaRow, instruction, range_from, sample_indices, gpqa_item, pick, index_of, format_question,
  lettered,
}
use async_energy_controller.Bench.Tasks.Items.Sampled.{
  Ascends, Samples, Ascends-AreDistinct, range_from-All, range_from-Ascends, length-range_from,
  sample_indices-Ascends,
}
use async_energy_controller.Bench.Tasks.Longctx.{ReportRow, token_buckets, bucket_label}
use async_energy_controller.Bench.Tasks.Math.{score_completion, score_answers}

nested :
    extract_boxed_answers "so \\boxed{\\frac{1}{2}} or \\boxed{3} \\boxed{4"
    ≡ some ("\\frac{1}{2}" ∷ "3" ∷ [])
unfolding extract_boxed_answers
nested = refl

abbrev no_numbers : String → List String
no_numbers s = []

spaced :
    score_completion texts no_numbers "\\boxed{7} then \\boxed{ \\left(1, 2\\right) }" "(1,2)"
    ≡ some true
unfolding score_completion extract_boxed_answers score_answers
spaced = refl

abbrev segments : List Segment
segments = ("so ", "{a}") ∷ []

extract_boxed_answers_total_example :
    (payloads : List String) × (extract_boxed_answers "so \\boxed{3}" ≡ some payloads)
extract_boxed_answers_total_example = extract_boxed_answers_total "so \\boxed{3}"

abbrev gpqa : GpqaRow
gpqa = record {
  question = " Which? ";
  correct_answer = "u";
  incorrect_answer_1 = "d";
  incorrect_answer_2 = "s";
  incorrect_answer_3 = "c";
}

abbrev turned : ℕ → List ℕ
turned idx = 2 ∷ 3 ∷ 0 ∷ 1 ∷ []

-- The items from the front.
abbrev firsts : ℕ → ℕ → List ℕ
firsts n_total n_items = range_from 0 n_items

firsts-Samples : Samples firsts
firsts-Samples n_total n_items h = (
  length-range_from 0 n_items,
  range_from-All 0 n_items n_total (omega arith),
  Ascends-AreDistinct (range_from 0 n_items) (range_from-Ascends 0 n_items),
)

third :
    gpqa_item texts (turned 0) 0 gpqa
    ≡ some (record {
      item_id = "gpqa_diamond:?";
      prompt = instruction ++ "\n\nQuestion: Which?\nA. s\nB. c\nC. u\nD. d\nAnswer:";
      target = "C";
    })
unfolding gpqa_item pick index_of format_question lettered
third = refl

sample_indices-Ascends_example :
    let indices = sample_indices firsts 7 3 in
    (length indices ≡ 3) × All (λ i. i < 7) indices × Ascends indices
sample_indices-Ascends_example = sample_indices-Ascends firsts firsts-Samples 7 3

-- A short report, which is not kept.
abbrev short : ReportRow
short = record { report = "too short"; summary = "short" }

edges : bucket_label token_buckets 16_000 ≡ some "8k-16k"
unfolding bucket_label
edges = refl
