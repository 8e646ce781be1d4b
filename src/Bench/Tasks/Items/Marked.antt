-- ===== src/Bench/Tasks/Items/Marked.antt =====
-- The items of `hmasync_controller/bench/tasks/gpqa_diamond.py`: the target is the letter of the answer.
use Prim.Native.String.{◌++◌}
use async_energy_controller.Base.{
  ℕ, ◌<◌, String, true, some, List, [], ◌∷◌, All, any, length, ◌==◌, ◌≡◌,
}
use async_energy_controller.Value.{PyText}
use async_energy_controller.Bench.Tasks.Items.{
  TaskItem, GpqaRow, letters, get_elem?, format_question, instruction,
}

-- What `shuffle` promises of `list(range(4))`.
abbrev pub IsShuffled : List ℕ → Type 0
IsShuffled order =
    All (λ i. i < 4) order
    × (length order ≡ 4)
    × All (λ n. any (λ m. m == n) order ≡ true) (0 ∷ 1 ∷ 2 ∷ 3 ∷ [])

-- The option is one of the choices.
abbrev pub IsShown : List String → String → Type 0
IsShown choices option = (at : ℕ) × (get_elem? choices at ≡ some option)

-- The prompt shows the choices behind their letters: the four options of the row, in some order; the letter of
-- the target stands before the answer.
pub record IsMarked (row : GpqaRow) (item : TaskItem) : Type 0 where
  pub choices : List String
  pub at : ℕ
  pub body : String
  pub four : length choices ≡ 4
  pub options : All (IsShown choices) (
      row.correct_answer ∷ row.incorrect_answer_1 ∷ row.incorrect_answer_2 ∷ row.incorrect_answer_3
      ∷ [])
  pub shown : format_question row.question choices ≡ some body
  pub prompted : item.prompt ≡ instruction ++ ("\n\n" ++ (body ++ "\nAnswer:"))
  pub letter : get_elem? letters at ≡ some item.target
  pub answer : get_elem? choices at ≡ some row.correct_answer

module _ (texts : PyText) where
  module _ (shuffled : ℕ → List ℕ) (shuffles : (idx : ℕ) → IsShuffled (shuffled idx))
      (rows : List GpqaRow) where
    -- One item for each index, of the row there.
    abbrev pub AreMarked : List ℕ → List TaskItem → Type 0
    AreMarked [] [] = Unit
    AreMarked (idx ∷ indices) (item ∷ items) =
        ((row : GpqaRow) × (get_elem? rows idx ≡ some row) × IsMarked row item)
        × AreMarked indices items
    AreMarked _ _ = ⊥
