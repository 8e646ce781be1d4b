-- ===== src/Bench/Tasks/Longctx/Bucketed.antt =====
-- Each report of `hmasync_controller/bench/tasks/longctx_summary.py` has a bucket.
use async_energy_controller.Base.{ℕ, ◌≤◌, ◌<◌, String, List, ◌⊎◌, ◌≡◌}
use async_energy_controller.Value.{PyText}
use async_energy_controller.Bench.Tasks.Longctx.{ReportRow, Eligible, LongctxItem}

-- The label of a number of tokens; one between two buckets belongs to the lower.
abbrev pub IsLabel : ℕ → String → Type 0
IsLabel n label =
    ((label ≡ "8k-16k") × (8_000 ≤ n) × (n ≤ 16_000))
    ⊎ (((label ≡ "16k-24k") × (16_000 < n) × (n ≤ 24_000))
        ⊎ ((label ≡ "24k-32k") × (24_000 < n) × (n ≤ 32_000)))

-- What is known of a report that is kept.
abbrev IsKept : ℕ → Eligible → Type 0
IsKept n e = (e.idx < n) × (8_000 ≤ e.estimated_tokens) × (e.estimated_tokens ≤ 32_000)

module _ (texts : PyText) (rows : List ReportRow) where
  -- The metadata of an item say the bucket of its estimate, and it is of the row of its report.
  abbrev pub IsBucketed : LongctxItem → Type 0
  IsBucketed item =
      IsLabel item.estimated_prompt_tokens item.token_bucket
      × (8_000 ≤ item.estimated_prompt_tokens)
      × (item.estimated_prompt_tokens ≤ 32_000)
