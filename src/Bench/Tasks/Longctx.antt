-- ===== src/Bench/Tasks/Longctx.antt =====
-- The items of `hmasync_controller/bench/tasks/longctx_summary.py`: long reports and their buckets.
pub mod Bucketed
use Prim.Native.String.{◌++◌}
use async_energy_controller.Base.{
  ℕ, zero, suc, ◌*◌, ◌/◌, String, Bool, ◌&&◌, Option, none, some, List, [], ◌∷◌, length, leb,
  get_elem?, if◌then◌else◌, text_length,
}
use async_energy_controller.Base.Int.{pos}
use async_energy_controller.Base.Options.{◌>>=◌}
use async_energy_controller.Value.{int, PyText}
use async_energy_controller.Bench.Tasks.Items.{TaskItem, sample_indices}

abbrev pub chars_per_token : ℕ
chars_per_token = 4

abbrev pub min_tokens : ℕ
min_tokens = 8_000

abbrev pub max_tokens : ℕ
max_tokens = 32_000

pub record Bucket : Type 0 where
  pub label : String
  pub lo : ℕ
  pub hi : ℕ

abbrev pub token_buckets : List Bucket
token_buckets =
    record { label = "8k-16k"; lo = 8_000; hi = 16_000 }
    ∷ record { label = "16k-24k"; lo = 16_000; hi = 24_000 }
    ∷ record { label = "24k-32k"; lo = 24_000; hi = 32_000 }
    ∷ []

-- The first bucket that holds the number; none for the `ValueError`.
unfoldable pub bucket_label : List Bucket → ℕ → Option String
bucket_label [] estimated_tokens = none
bucket_label (b ∷ buckets) estimated_tokens =
    let rest = bucket_label buckets estimated_tokens in
    if leb b.lo estimated_tokens && leb estimated_tokens b.hi then some b.label else rest

-- `text[:n]`
unfoldable pub text_to : ℕ → String → String
text_to zero s = ""
text_to (suc n) String.[] = ""
text_to (suc n) (String.◌∷◌ c s) = String.◌∷◌ c (text_to n s)

unfoldable pub truncate_to_max_tokens : String → String
unfolding text_to
truncate_to_max_tokens report =
    if leb (text_length report) (max_tokens * chars_per_token)
    then report
    else text_to (max_tokens * chars_per_token) report

pub record ReportRow : Type 0 where
  pub report : String
  pub summary : String

pub record Eligible : Type 0 where
  pub idx : ℕ
  pub report : String
  pub estimated_tokens : ℕ

-- The loop over the rows, from the one at `idx`.
unfoldable pub eligible_rows : ℕ → List ReportRow → List Eligible
eligible_rows idx [] = []
eligible_rows idx (row ∷ rows) =
    let rest = eligible_rows (suc idx) rows in
    let report = truncate_to_max_tokens row.report in
    let estimated_tokens = text_length report / chars_per_token in
    if leb min_tokens estimated_tokens
    then record { idx = idx; report = report; estimated_tokens = estimated_tokens } ∷ rest
    else rest

-- An item, and the bucket and the estimate that are its metadata.
pub record LongctxItem : Type 0 where
  pub item : TaskItem
  pub token_bucket : String
  pub estimated_prompt_tokens : ℕ

abbrev pub item_of : PyText → ReportRow → Eligible → String → LongctxItem
item_of texts row e token_bucket = record {
  item = record {
    item_id = "longctx_summary:" ++ texts.format (int (pos e.idx));
    prompt =
        "Summarize the following government report in a few sentences.\n\nReport:\n"
        ++ (e.report ++ "\n\nSummary:");
    target = row.summary;
  };
  token_bucket = token_bucket;
  estimated_prompt_tokens = e.estimated_tokens;
}

unfoldable pub longctx_item : PyText → List ReportRow → Eligible → Option LongctxItem
unfolding bucket_label
longctx_item texts rows e = do
  row ← get_elem? rows e.idx
  token_bucket ← bucket_label token_buckets e.estimated_tokens
  some (item_of texts row e token_bucket)

-- The loop over the chosen positions; none for an exception.
unfoldable pub longctx_items :
    PyText → List ReportRow → List Eligible → List ℕ → Option (List LongctxItem)
longctx_items texts rows eligible [] = some []
longctx_items texts rows eligible (at ∷ positions) = do
  e ← get_elem? eligible at
  item ← longctx_item texts rows e
  items ← longctx_items texts rows eligible positions
  some (item ∷ items)

unfoldable pub longctx_load :
    PyText → (ℕ → ℕ → List ℕ) → List ReportRow → ℕ → Option (List LongctxItem)
longctx_load texts sample rows n_items =
    let eligible = eligible_rows 0 rows in
    longctx_items texts rows eligible (sample_indices sample (length eligible) n_items)
