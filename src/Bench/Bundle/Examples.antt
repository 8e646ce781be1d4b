-- ===== src/Bench/Bundle/Examples.antt =====
-- Runs of the redaction check of a bundle.
use async_energy_controller.Base.{
  String, Bool, ◌≡◌, refl, none, some, [], List, ◌*◌, ◌||◌, false, ◌∷◌, ◌^◌, true, map,
}
use async_energy_controller.Base.Int.{pos, negsuc}
use async_energy_controller.Value.{
  finite, float, Fields, get, put, has_key, truthy, Value, int, str, list, dict, nil, cons, end,
  field,
}
use async_energy_controller.Samples.{texts}
use async_energy_controller.Submission.Redact.{starts_with, contains, denylisted_keys}
use async_energy_controller.Bench.Bundle.{check_denylist, is_violation, denied_field, entity_value}
use async_energy_controller.Value.Double.{is_less, true_quotient}
use async_energy_controller.Bench.Bundle.Build.{
  run_export_fields, copy_fields, export_run, node_hash_of, entry_of, build_bundle,
  submission_gate_reason,
}
use async_energy_controller.Bench.Bundle.Export.{is_exported, stamped, export_run_lem}
use async_energy_controller.Bench.Bundle.Builds.{
  Lowers, own_names, assembled, build_bundle-assembled,
}
use async_energy_controller.Bench.Bundle.Net.{check_denylist-denylisted_keys}

-- Stands for the pattern of an entity.
abbrev is_sensor : String → Bool
is_sensor s = starts_with "sensor." s

abbrev probe : Value
probe =
    dict
      (field "max_tokens" (int (pos 8)) (field "engines" (list (cons (str "llama.cpp") nil)) end))

probe_passes : check_denylist texts is_sensor "bundle" probe ≡ none
unfolding check_denylist is_violation contains starts_with
probe_passes = refl

api_token :
    check_denylist texts is_sensor "bundle" (dict (field "api_token" (str "x") end))
    ≡ some (denied_field "bundle.api_token")
unfolding check_denylist is_violation contains starts_with
api_token = refl

sensor :
    check_denylist texts is_sensor "bundle" (dict (field "meter" (str "sensor.power") end))
    ≡ some (entity_value "bundle.meter" "sensor.power")
unfolding check_denylist is_violation contains starts_with
sensor = refl

check_denylist-denylisted_keys_example : denylisted_keys texts "$" probe ≡ []
check_denylist-denylisted_keys_example =
    check_denylist-denylisted_keys texts is_sensor "bundle" "$" probe probe_passes

lower_same : (names : List String) → Lowers texts is_sensor names
lower_same [] = tt
lower_same (n ∷ names) = (refl, lower_same names)

abbrev run : Fields
run = field "run_id" (str "r1") (
    field "target_host" (str "box.local")
      (field "repeat_index" (int (pos 0)) (field "model" (str "qwen3") end)))

abbrev node : Fields
node = field "node_hash" (str "ab12") (field "ram_gb" (float (finite (pos (319 * 2 ^ 1070)))) end)

export_run_lem_example :
    let exported = export_run run (str "ab12") "2026-07-20" in
    (has_key "target_host" exported ≡ (is_exported run "target_host" || stamped run "target_host"))
    × (is_exported run "target_host" ≡ true → get "target_host" exported ≡ get "target_host" run)
export_run_lem_example = export_run_lem run (str "ab12") "2026-07-20" "target_host"

stays_behind : has_key "target_host" (export_run run (str "ab12") "2026-07-20") ≡ false
unfolding export_run copy_fields run_export_fields has_key put get
stays_behind = refl

build_bundle-assembled_example :
    build_bundle texts is_sensor (run ∷ []) (some node) none "quick" "2026-07-20"
    ≡ assembled texts is_sensor "2026-07-20" "quick"
        (map (λ r. export_run r (node_hash_of texts (some node)) "2026-07-20") (run ∷ []))
        (entry_of texts is_sensor (some node))
unfolding starts_with node_hash_of get truthy
build_bundle-assembled_example =
    build_bundle-assembled texts is_sensor (run ∷ []) (some node) none "quick" "2026-07-20"
      (lower_same own_names) (lower_same run_export_fields) ((refl, (refl, (tt, (refl, tt)))), tt)
      (refl, (tt, tt)) (refl, (refl, (refl, (refl, tt))))

gate :
    submission_gate_reason
      (field "counter_vs_integration_pct_diff" (float (finite (negsuc (11 * 2 ^ 1074)))) end)
    ≡ some (record { diff = finite (negsuc (11 * 2 ^ 1074)); sampler_gap_s = none })
unfolding submission_gate_reason get truthy is_less true_quotient
gate = refl
