-- ===== src/Bench/Tasks/Items.antt =====
-- The items of a task: `sample_indices` of `hmasync_controller/bench/tasks/base.py` and the loading of
-- `hmasync_controller/bench/tasks/gpqa_diamond.py`. Python's seeded random choice is a parameter, and so are
-- the rows of the dataset.
pub mod Sampled
pub mod Marked
use Prim.Native.String.{◌++◌}
use async_energy_controller.Base.{
  ℕ, zero, suc, String, Bool, Option, none, some, List, [], ◌∷◌, map, length, ltb, leb, ◌==◌,
  if◌then◌else◌, get_elem?,
}
use async_energy_controller.Base.Int.{pos}
use async_energy_controller.Base.Options.{◌>>=◌}
use async_energy_controller.Value.{int, join, PyText}
use async_energy_controller.Executor.Schedule.{lstrip, rstrip}

pub record TaskItem : Type 0 where
  pub item_id : String
  pub prompt : String
  pub target : String

unfoldable pub insert_index : ℕ → List ℕ → List ℕ
insert_index i [] = i ∷ []
insert_index i (j ∷ js) = let rest = insert_index i js in if leb i j then i ∷ j ∷ js else j ∷ rest

-- `sorted(…)`
unfoldable pub sort_indices : List ℕ → List ℕ
unfolding insert_index
sort_indices [] = []
sort_indices (i ∷ is) = insert_index i (sort_indices is)

-- `list(range(from, from + n))`
abbrev pub range_from : ℕ → ℕ → List ℕ
range_from start zero = []
range_from start (suc n) = start ∷ range_from (suc start) n

-- `sample n_total n_items` is `random.Random(seed).sample(range(n_total), n_items)`.
unfoldable pub sample_indices : (ℕ → ℕ → List ℕ) → ℕ → ℕ → List ℕ
unfolding sort_indices
sample_indices sample n_total n_items =
    if leb n_total n_items then range_from 0 n_total else sort_indices (sample n_total n_items)

pub record GpqaRow : Type 0 where
  pub question : String
  pub correct_answer : String
  pub incorrect_answer_1 : String
  pub incorrect_answer_2 : String
  pub incorrect_answer_3 : String

abbrev pub letters : List String
letters = "A" ∷ "B" ∷ "C" ∷ "D" ∷ []

-- `order.index(n)`, or none for its exception.
unfoldable pub index_of : ℕ → List ℕ → Option ℕ
index_of n [] = none
index_of n (m ∷ ms) =
    let rest = index_of n ms >>= λ i. some (suc i) in if m == n then some 0 else rest

-- `[options[i] for i in order]`, or none for an exception.
unfoldable pub pick {ℓ} : {A : Type ℓ} → List A → List ℕ → Option (List A)
pick options [] = some []
pick options (i ∷ is) = do o ← get_elem? options i; os ← pick options is; some (o ∷ os)

-- The lines of the choices, each behind its letter; none for an exception.
unfoldable pub lettered : List String → List String → Option (List String)
lettered ls [] = some []
lettered [] (c ∷ cs) = none
lettered (l ∷ ls) (c ∷ cs) = do lines ← lettered ls cs; some ((l ++ (". " ++ c)) ∷ lines)

unfoldable pub format_question : String → List String → Option String
unfolding lstrip rstrip join
format_question question choices = do
  lines ← lettered letters choices
  some (join "\n" (("Question: " ++ rstrip (lstrip question)) ∷ lines))

abbrev pub answers_of : GpqaRow → List String
answers_of row =
    row.correct_answer ∷ row.incorrect_answer_1 ∷ row.incorrect_answer_2 ∷ row.incorrect_answer_3
    ∷ []

abbrev pub instruction : String
instruction =
    "The following is a multiple choice question (with answers) about graduate-level biology, physics, or chemistry. Respond with only the letter of the correct answer."

-- `order` is `list(range(4))` after the shuffle; none for an exception.
unfoldable pub gpqa_item : PyText → List ℕ → ℕ → GpqaRow → Option TaskItem
gpqa_item texts order idx row = do
  shuffled_choices ← pick (answers_of row) order
  at ← index_of 0 order
  correct_letter ← get_elem? letters at
  body ← format_question row.question shuffled_choices
  some (record {
    item_id = "gpqa_diamond:" ++ texts.format (int (pos idx));
    prompt = instruction ++ ("\n\n" ++ (body ++ "\nAnswer:"));
    target = correct_letter;
  })

-- The loop over the chosen rows. `shuffled idx` is the order for the row at `idx`.
unfoldable pub gpqa_items : PyText → (ℕ → List ℕ) → List GpqaRow → List ℕ → Option (List TaskItem)
gpqa_items texts shuffled rows [] = some []
gpqa_items texts shuffled rows (idx ∷ indices) = do
  row ← get_elem? rows idx
  item ← gpqa_item texts (shuffled idx) idx row
  items ← gpqa_items texts shuffled rows indices
  some (item ∷ items)

unfoldable pub gpqa_load :
    PyText → (ℕ → List ℕ) → (ℕ → ℕ → List ℕ) → List GpqaRow → ℕ → Option (List TaskItem)
gpqa_load texts shuffled sample rows n_items =
    gpqa_items texts shuffled rows (sample_indices sample (length rows) n_items)
