-- ===== src/Submission.antt =====
-- `hmasync_controller/bench/submission.py`: a bundle of benchmark results is checked, submitted,
-- and kept in a spool of its own while the API cannot be reached. Sending is the interface
-- `Carrier`, which the API client fills. `schema` is the schema given, or else the vendored one.
pub mod Redact
pub mod Schema
pub mod Valid
pub mod Guard
pub mod Drain
pub mod Examples
use Prim.Native.String.{◌++◌}
use async_energy_controller.Base.{
  ℕ, ◌+◌, String, Bool, true, false, not, Option, none, some, List, [], ◌∷◌, ◌==◌, if◌then◌else◌,
}
use async_energy_controller.Base.Int.{ℤ, pos}
use async_energy_controller.Value.{Value, int, str, dict, Fields, end, field, get, join, PyText}
use async_energy_controller.Api.Response.{ApiResult}
use async_energy_controller.Api.Client.{Client, Network}
use async_energy_controller.Api.Endpoints
use async_energy_controller.Spool.{Spool, SpoolItem, enqueue, remove, pending, count}
use async_energy_controller.Submission.Redact.{denylisted_keys}
use async_energy_controller.Submission.Schema.{Errors, validate_bundle}

pub record Carrier (W : Type 0) : Type 0 where
  pub send_bundle : Fields → W → ApiResult × W

abbrev pub api_carrier : PyText → Network → Carrier Client
api_carrier texts network = record { send_bundle = Endpoints.submit_bench_bundle texts network }

pub record SubmitResult : Type 0 where
  pub ok : Bool
  pub spooled : Bool
  pub message : String

pub record BenchDrainResult : Type 0 where
  pub drained : ℕ
  pub remaining : ℕ
  pub stopped_early : Bool

-- A file as `json.loads(p.read_text())` gives it, or the text of the error.
pub data Read : Type 0 where
  unreadable : String → Read
  parsed : Value → Read

pub data Loaded : Type 0 where
  loaded : Fields → Loaded
  not_loaded : String → Loaded

unfoldable pub load_bundle : String → Read → Loaded
load_bundle path (unreadable exc) = not_loaded ("could not read " ++ path ++ ": " ++ exc)
load_bundle path (parsed (dict fs)) = loaded fs
load_bundle path (parsed _) = not_loaded (path ++ " is not a JSON object")

-- The bundle of a queued item, unless the item is malformed.
unfoldable pub bundle_of : Value → Option Fields
bundle_of (dict fs) = elim (get "bundle" fs) [ dict bundle ↦ some bundle | _ ↦ none ]
bundle_of _ = none

module _ {W : Type 0} (carrier : Carrier W) where
  -- The loop over the queued items, with a bundle of the first one or none.
  unfoldable pub drain_bundles : List SpoolItem → ℕ → W → Spool → BenchDrainResult × W × Spool
  unfolding bundle_of
  drain_bundles [] drained w spool =
      (record { drained = drained; remaining = count spool; stopped_early = false }, w, spool)
  drain_bundles (item ∷ items) drained w spool = elim (bundle_of item.entry) [
    | none ↦ drain_bundles items drained w (remove item.id spool)
    | some bundle ↦
        let (result, w') = carrier.send_bundle bundle w in
        let rest = drain_bundles items (drained + 1) w' (remove item.id spool) in
        if not result.ok
        then (
          record { drained = drained; remaining = count spool; stopped_early = true },
          w',
          spool,
        )
        else rest
  ]

  unfoldable pub drain_bench_spool : Option ℤ → W → Spool → BenchDrainResult × W × Spool
  unfolding drain_bundles
  drain_bench_spool max_items w spool = drain_bundles (pending max_items spool) 0 w spool

  module _ (texts : PyText) (schema : Fields) (now : String) where
    abbrev pub refuse : String → W → Spool → Option (SubmitResult × W × Spool)
    refuse message w spool =
        some (record { ok = false; spooled = false; message = message }, w, spool)

    -- With the outcome of `spool.enqueue`.
    unfoldable pub after_enqueue :
        Value → W → Option (ℕ × Spool) → Option (SubmitResult × W × Spool)
    after_enqueue error w none = none
    after_enqueue error w (some (id, spool')) = some (
      record {
        ok = false;
        spooled = true;
        message = "API unreachable (" ++ texts.format error ++ "); bundle spooled for retry";
      },
      w,
      spool',
    )

    -- Where the API cannot be reached. `none` is the `TypeError` of a bundle that is no JSON.
    unfoldable pub keep : Value → Fields → W → Spool → Option (SubmitResult × W × Spool)
    unfolding after_enqueue
    keep error bundle w spool =
        after_enqueue error w (enqueue texts now (dict (field "bundle" (dict bundle) end)) [] spool)

    abbrev pub flushed_note : ℕ → String
    flushed_note drained =
        if drained == 0
        then ""
        else " (" ++ texts.format (int (pos drained)) ++ " queued bundle(s) also flushed)"

    unfoldable pub send_checked :
        String → ℕ → Fields → W → Spool → Option (SubmitResult × W × Spool)
    unfolding keep
    send_checked name drained bundle w spool =
        let (result, w') = carrier.send_bundle bundle w in
        if result.ok
        then some (
          record {
            ok = true;
            spooled = false;
            message = "submitted " ++ name ++ flushed_note drained;
          },
          w',
          spool,
        )
        else if result.transport_error
        then keep result.error bundle w' spool
        else refuse ("submission refused: " ++ texts.format result.error) w' spool

    -- The schema errors, and the sending where there are none. `none` is the `KeyError` of a reference
    -- of the schema that is not there.
    unfoldable pub check_schema :
        String → ℕ → Fields → Errors → W → Spool → Option (SubmitResult × W × Spool)
    unfolding send_checked join
    check_schema name drained bundle none w spool = none
    check_schema name drained bundle (some []) w spool = send_checked name drained bundle w spool
    check_schema name drained bundle (some (e ∷ es)) w spool =
        refuse ("bundle failed schema validation:\n  " ++ join "\n  " (e ∷ es)) w spool

    -- The denied keys, and the validation where there are none.
    unfoldable pub check_keys :
        String → ℕ → Fields → List String → W → Spool → Option (SubmitResult × W × Spool)
    unfolding check_schema validate_bundle join
    check_keys name drained bundle [] w spool =
        check_schema name drained bundle (validate_bundle texts schema (dict bundle)) w spool
    check_keys name drained bundle (k ∷ ks) w spool =
        refuse ("refusing to submit — denylisted key(s) present: " ++ join ", " (k ∷ ks)) w spool

    unfoldable pub submit_loaded :
        String → ℕ → Loaded → W → Spool → Option (SubmitResult × W × Spool)
    unfolding check_keys
    submit_loaded name drained (not_loaded error) w spool = refuse error w spool
    submit_loaded name drained (loaded bundle) w spool =
        check_keys name drained bundle (denylisted_keys texts "$" (dict bundle)) w spool

    -- `path` is the path as a text and `name` its last part.
    unfoldable pub submit_bundle_file :
        String → String → Read → W → Spool → Option (SubmitResult × W × Spool)
    unfolding load_bundle submit_loaded drain_bench_spool
    submit_bundle_file path name file w spool =
        let (drain, w', spool') = drain_bench_spool none w spool in
        submit_loaded name drain.drained (load_bundle path file) w' spool'
