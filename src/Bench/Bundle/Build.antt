-- ===== src/Bench/Bundle/Build.antt =====
-- The assembly of a submission bundle in `hmasync_controller/bench/bundle.py`. A run is the object that
-- `asdict` gives of its metrics, and a node the object of its fingerprint. `now` is the time that is
-- read where the caller gives none.
use async_energy_controller.Base.{
  ◌^◌, String, Bool, Option, none, some, List, [], ◌∷◌, map, str_eq, if◌then◌else◌,
}
use async_energy_controller.Base.Int.{pos}
use async_energy_controller.Value.{
  Float, finite, Value, null, bool, int, float, str, list, dict, nil, Fields, end, field, items_of,
  get, put, truthy, PyText,
}
use async_energy_controller.Value.Double.{
  half_even, magnitude, is_below_zero, with_sign, is_less, true_quotient, absolute,
}
use async_energy_controller.Bench.Bundle.{ExportDenylistViolation, check_denylist}

abbrev pub node_export_fields : List String
node_export_fields = "cpu_model" ∷ "mem_total_mib" ∷ "ram_gb" ∷ "pcie_gen" ∷ []

unfoldable pub run_export_fields : List String
run_export_fields =
    "schema_version" ∷ "engine" ∷ "engine_version" ∷ "driver_version" ∷ "cuda_version" ∷ "gpu_name"
    ∷ "has_vision_tower" ∷ "power_limit_w" ∷ "clock_lock_mhz" ∷ "temperature" ∷ "max_tokens"
    ∷ "seed" ∷ "n_shot" ∷ "thinking_mode" ∷ "dataset_revision" ∷ "gguf_repo" ∷ "gguf_revision"
    ∷ "weights_digest" ∷ "model" ∷ "quantization" ∷ "task" ∷ "task_shape" ∷ "is_canary" ∷ "n_items"
    ∷ "n_correct" ∷ "accuracy" ∷ "joules_per_token" ∷ "joules_per_item"
    ∷ "joules_per_correct_answer" ∷ "jpc_ci_low" ∷ "jpc_ci_high" ∷ "accuracy_ci_low"
    ∷ "accuracy_ci_high" ∷ "total_joules_gpu" ∷ "total_joules_gpu_counter" ∷ "total_joules_gpu_best"
    ∷ "energy_source" ∷ "counter_vs_integration_pct_diff" ∷ "total_joules_cpu"
    ∷ "total_joules_cpu_dram" ∷ "kwh_delta" ∷ "wall_counter_ticks" ∷ "mean_tokens_per_second"
    ∷ "pooled_tokens_per_second" ∷ "total_completion_tokens" ∷ "streaming_used" ∷ "ttft_p50_s"
    ∷ "ttft_p95_s" ∷ "itl_mean_ms" ∷ "itl_p95_ms" ∷ "run_duration_s" ∷ "peak_gpu_w" ∷ "mean_gpu_w"
    ∷ "gpu_temp_c_start" ∷ "gpu_temp_c_end" ∷ "peak_gpu_temp_c" ∷ "mean_gpu_temp_c"
    ∷ "peak_gpu_mem_used_mib" ∷ "mean_gpu_mem_used_mib" ∷ "gpu_mem_used_pct_of_total"
    ∷ "mean_gpu_util_pct" ∷ "mean_gpu_mem_util_pct" ∷ "mean_gpu_sm_clock_mhz" ∷ "mean_gpu_fan_pct"
    ∷ "thermal_throttle_pct" ∷ "power_cap_throttle_pct" ∷ "mean_wall_w" ∷ "peak_wall_w"
    ∷ "node_overhead_ratio" ∷ "measurement_tier" ∷ "alpha_j_per_prompt_token"
    ∷ "beta_j_per_completion_token" ∷ "e_fixed_j" ∷ "costmodel_r2" ∷ "costmodel_n"
    ∷ "gpu_power_std_w" ∷ "gpu_power_cv" ∷ "gpu_power_crest_factor" ∷ "gpu_power_p95_p50_ratio"
    ∷ "gpu_power_jaggedness_w_per_s" ∷ []

-- `round(value)`: `none` is its exception.
unfoldable pub round_value : Value → Option Value
round_value (bool b) = some (int (pos (if b then 1 else 0)))
round_value (int n) = some (int n)
round_value (float (finite n)) =
    some (int (with_sign (is_below_zero n) (half_even (magnitude n) (2 ^ 1074))))
round_value _ = none

-- The value of one field of a node.
unfoldable pub node_value : String → Value → Option Value
unfolding round_value
node_value field_name null = some null
node_value field_name value = if str_eq field_name "ram_gb" then round_value value else some value

-- The loop over the fields of a node, with the entry so far: `none` is an exception.
unfoldable pub export_fields : List String → Fields → Fields → Option Fields
unfolding node_value
export_fields [] node exported = some exported
export_fields (name ∷ names) node exported = elim (node_value name (get name node)) [
  | none ↦ none
  | some value ↦ export_fields names node (put name value exported)
]

-- What becomes of a node: no entry, one, or an exception.
pub data NodeEntry : Type 0 where
  no_entry : NodeEntry
  entry : Fields → NodeEntry
  unrounded : NodeEntry

unfoldable pub export_node : Fields → NodeEntry
export_node node =
    let node_hash = get "node_hash" node in
    if truthy node_hash
    then elim (export_fields node_export_fields node (field "node_hash" node_hash end)) [
      | none ↦ unrounded
      | some exported ↦ entry exported
    ]
    else no_entry

-- `exported.update({name: run_dict.get(name) …})`
unfoldable pub copy_fields : List String → Fields → Fields → Fields
copy_fields [] run exported = exported
copy_fields (name ∷ names) run exported = copy_fields names run (put name (get name run) exported)

-- `run_dict.get("repeat_index", 0)`, where a run has the field.
unfoldable pub export_run : Fields → Value → String → Fields
export_run run node_hash created_at = copy_fields run_export_fields run (
    field "node_hash" node_hash
      (field "created_at" (str created_at) (field "repeat_index" (get "repeat_index" run) end)))

pub data Built : Type 0 where
  built : Fields → Built
  refused : ExportDenylistViolation → Built
  raised : Built

abbrev pub assemble : String → String → List Fields → List Fields → Fields
assemble stamp suite nodes runs = field "schema_version" (str "2") (
    field "generated_at" (str stamp) (
      field "suite" (str suite) (
        field "nodes" (list (items_of (map dict nodes))) (
          field "runs" (list (items_of (map dict runs))) (
            field "grades" (list nil)
              (field "load_profiles" (list nil) (field "baselines" (list nil) end)))))))

-- `str(node_hash) if node_hash else None`, of `node.get("node_hash") if node else None`.
unfoldable pub node_hash_of : PyText → Option Fields → Value
node_hash_of texts none = null
node_hash_of texts (some node) =
    let node_hash = get "node_hash" node in
    if truthy node_hash then str (texts.format node_hash) else null

-- `generated_at or datetime.now(timezone.utc).isoformat()`
abbrev pub stamp_of : Option String → String → String
stamp_of none now = now
stamp_of (some s) now = if str_eq s "" then now else s

module _ (texts : PyText) (is_entity_id : String → Bool) where
  unfoldable pub checked : Fields → Built
  unfolding check_denylist
  checked bundle = elim (check_denylist texts is_entity_id "bundle" (dict bundle)) [
    | none ↦ built bundle
    | some e ↦ refused e
  ]

  unfoldable pub with_node : String → String → List Fields → NodeEntry → Built
  unfolding checked
  with_node stamp suite runs no_entry = checked (assemble stamp suite [] runs)
  with_node stamp suite runs (entry node) = checked (assemble stamp suite (node ∷ []) runs)
  with_node stamp suite runs unrounded = raised

  abbrev pub entry_of : Option Fields → NodeEntry
  entry_of none = no_entry
  entry_of (some node) = export_node node

  unfoldable pub build_bundle :
      List Fields → Option Fields → Option String → String → String → Built
  build_bundle runs node generated_at suite now =
      let stamp = stamp_of generated_at now in
      let node_hash = node_hash_of texts node in
      with_node stamp suite (map (λ run. export_run run node_hash stamp) runs) (entry_of node)

-- Why a run must not leave the box: the percentage by which its energies disagree, and how long the
-- sampler was absent.
pub record GateReason : Type 0 where
  pub diff : Float
  pub sampler_gap_s : Option Value

abbrev pub counter_integration_max_pct_diff : Float
counter_integration_max_pct_diff = true_quotient 10 1

-- `counter_vs_integration_pct_diff` is a double or None.
unfoldable pub submission_gate_reason : Fields → Option GateReason
unfolding is_less true_quotient
submission_gate_reason run = elim (get "counter_vs_integration_pct_diff" run) [
  | float diff ↦
      let gap = get "sampler_gap_s" run in
      if is_less counter_integration_max_pct_diff (absolute diff)
      then some (record { diff = diff; sampler_gap_s = if truthy gap then some gap else none })
      else none
  | _ ↦ none
]
