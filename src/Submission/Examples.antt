-- ===== src/Submission/Examples.antt =====
-- The theorems about submissions, for a bundle with one denied key and one without.
use async_energy_controller.Base.{true, [], ◌≡◌, refl, some, none, ◌∷◌, false, arith}
use async_energy_controller.Value.{dict, field, end, str, list, nil, Fields, null}
use async_energy_controller.Value.Encode.{is_plain}
use async_energy_controller.Api.Client.{Client}
use async_energy_controller.Spool.{Spool}
use async_energy_controller.Spool.Order.{IsQueue}
use async_energy_controller.Submission.Drain.{IsDrain, drain_bench_spool-IsDrain}
use async_energy_controller.Submission.{
  SubmitResult, parsed, api_carrier, load_bundle, drain_bench_spool, submit_bundle_file,
}
use async_energy_controller.Submission.Redact.{denylisted_keys}
use async_energy_controller.Submission.Guard.{Handled, Resolves, submit_bundle_file-Handled}
use async_energy_controller.Value.{has_key, get, bool, cons}
use async_energy_controller.Submission.Schema.{validate_bundle, validate, resolved}
use async_energy_controller.Submission.Valid.{IsValidObject, validate-IsValidObject}
use async_energy_controller.Samples.{texts, no_api, client, spooled}

abbrev bundle : Fields
bundle = field "gpu" (dict (field "name" (str "A4000") end)) (field "runs" (list nil) end)

abbrev schema : Fields
schema = field "type" (str "object") (
    field "properties" (dict (field "gpu" (dict end) (field "runs" (dict end) end))) (
      field "required" (list (cons (str "gpu") nil))
        (field "additionalProperties" (bool false) end)))

bundle-is_plain : is_plain (dict bundle) ≡ true
unfolding is_plain
bundle-is_plain = refl

bundle-Resolves : Resolves (api_carrier texts no_api) texts schema "now" (parsed (dict bundle))
unfolding validate_bundle get has_key
bundle-Resolves = refl

submit_bundle_file-Handled_example :
    let drained = drain_bench_spool (api_carrier texts no_api) none client spooled in
    (r : SubmitResult × Client × Spool) × (submit_bundle_file
        (api_carrier texts no_api)
        texts
        schema
        "now"
        "/tmp/b.json"
        "b.json"
        (parsed (dict bundle))
        client
        spooled
      ≡ some r)
    × Handled
        (api_carrier texts no_api)
        texts
        schema
        "now"
        (load_bundle "/tmp/b.json" (parsed (dict bundle)))
        drained.1
        drained.2
        r
submit_bundle_file-Handled_example =
    submit_bundle_file-Handled (api_carrier texts no_api) texts schema "now" "/tmp/b.json" "b.json"
      (parsed (dict bundle)) client spooled bundle-is_plain bundle-Resolves

denied-found :
    denylisted_keys texts "$" (dict (field "gpu" (dict (field "gpu_uuid" (str "x") end)) end))
    ≡ "$.gpu.gpu_uuid" ∷ []
unfolding denylisted_keys
denied-found = refl

bundle-valid : validate texts end (dict bundle) schema "$" ≡ some []
unfolding validate has_key get
bundle-valid = refl

validate-IsValidObject_example :
    (n : Fields) × (resolved schema end ≡ some n)
    × (has_key "properties" n ≡ true → IsValidObject texts end bundle n "$")
validate-IsValidObject_example = validate-IsValidObject texts end bundle schema "$" bundle-valid

-- A bundle and an item without one.
abbrev queued : Spool
queued = record {
  rows =
      record {
        id = 1;
        created_at = "now";
        controller_id = null;
        run_id = null;
        entry = str "no bundle";
        samples = list nil;
      }
      ∷ record {
        id = 4;
        created_at = "now";
        controller_id = null;
        run_id = null;
        entry = dict (field "bundle" (dict bundle) end);
        samples = list nil;
      }
      ∷ [];
  sequence = 4;
}

queued-IsQueue : IsQueue queued
queued-IsQueue = record { ascending = omega arith }

drain_bench_spool-IsDrain_example :
    IsDrain
      (api_carrier texts no_api)
      queued.rows
      []
      4
      0
      client
      (drain_bench_spool (api_carrier texts no_api) none client queued)
drain_bench_spool-IsDrain_example =
    drain_bench_spool-IsDrain (api_carrier texts no_api) none client queued queued-IsQueue
