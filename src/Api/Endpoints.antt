-- ===== src/Api/Endpoints.antt =====
-- The wire calls of `ApiClient` in `hmasync_controller/apiclient.py`. An optional argument is a
-- value that is null where the source has `None`.
use Prim.Native.String.{◌++◌}
use async_energy_controller.Base.{String, Option, none, some, if◌then◌else◌}
use async_energy_controller.Base.Int.{ℤ}
use async_energy_controller.Value.{
  DateTime, Value, null, int, str, datetime, list, dict, Items, Fields, end, field, put, is_null,
  PyText,
}
use async_energy_controller.Api.Response.{ApiResult}
use async_energy_controller.Api.Client.{Network, Client, authed_request}

-- `if value is not None: body[key] = value`.
unfoldable pub put_given : String → Value → Fields → Fields
put_given k v fs = if is_null v then fs else put k v fs

-- The optional arguments of `create_workflow`.
pub record WorkflowOptions : Type 0 where
  pub request : Value
  pub est_duration_s : Value
  pub deadline : Value
  pub earliest_start : Value
  pub recurrence : Value
  pub nameplate_watts : Value
  pub enabled : Value
  pub bench_gpu_class : Value
  pub bench_model_size_class : Value
  pub bench_quant : Value

unfoldable pub workflow_body : String → String → WorkflowOptions → Fields
unfolding put_given put
workflow_body name framework o =
    let base = field "name" (str name) (field "framework" (str framework) end) in
    let b1 = put_given "request" o.request base in
    let b2 = put_given "est_duration_s" o.est_duration_s b1 in
    let b3 = put_given "deadline" o.deadline b2 in
    let b4 = put_given "earliest_start" o.earliest_start b3 in
    let b5 = put_given "recurrence" o.recurrence b4 in
    let b6 = put_given "nameplate_watts" o.nameplate_watts b5 in
    let b7 = put_given "enabled" o.enabled b6 in
    let b8 = put_given "bench_gpu_class" o.bench_gpu_class b7 in
    let b9 = put_given "bench_model_size_class" o.bench_model_size_class b8 in
    put_given "bench_quant" o.bench_quant b9

unfoldable pub advise_body : Value → Value → Value → Value → String → Value → Fields
unfolding put_given put
advise_body est_duration_s deadline earliest_start nameplate_watts framework fingerprint =
    let base =
      field "est_duration_s" est_duration_s
        (field "deadline" deadline (field "framework" (str framework) end)) in
    put_given "fingerprint" fingerprint
      (put_given "nameplate_watts" nameplate_watts (put_given "earliest_start" earliest_start base))

unfoldable pub ack_body : ℤ → String → Value → Option DateTime → Fields
ack_body version event workflow_id at = field "schedule_version" (int version) (
    field "event" (str event) (
      field "workflow_id" workflow_id
        (elim at [ none ↦ end | some t ↦ field "at" (datetime t) end ])))

module _ (texts : PyText) (network : Network) where
  abbrev pub call : String → String → Value → Option Fields → Client → ApiResult × Client
  call = authed_request texts network

  unfoldable pub advise :
      Value → Value → Value → Value → String → Value → Client → ApiResult × Client
  unfolding advise_body
  advise est deadline earliest watts framework fingerprint =
      call "POST" "/api/v1/advise"
        (dict (advise_body est deadline earliest watts framework fingerprint)) none

  unfoldable pub create_workflow : String → String → WorkflowOptions → Client → ApiResult × Client
  unfolding workflow_body
  create_workflow name framework options =
      call "POST" "/api/v1/workflows" (dict (workflow_body name framework options)) none

  unfoldable pub register_node : Fields → Client → ApiResult × Client
  register_node fingerprint = call "POST" "/api/v1/bench/nodes" (dict fingerprint) none

  unfoldable pub push_run : Value → Client → ApiResult × Client
  push_run payload = call "POST" "/api/v1/runs" payload none

  unfoldable pub push_samples : Value → Items → Client → ApiResult × Client
  push_samples run_id samples =
      call "POST" ("/api/v1/runs/" ++ texts.format run_id ++ "/samples")
        (dict (field "samples" (list samples) end)) none

  unfoldable pub pull_schedule : ℤ → Client → ApiResult × Client
  pull_schedule after = call "GET" "/api/v1/schedule" null (some (field "after" (int after) end))

  unfoldable pub ack : ℤ → String → Value → Option DateTime → Client → ApiResult × Client
  unfolding ack_body
  ack version event workflow_id at =
      call "POST" "/api/v1/schedule/ack" (dict (ack_body version event workflow_id at)) none

  unfoldable pub get_recommended_cap : String → Value → Client → ApiResult × Client
  get_recommended_cap node_hash tolerance_pct =
      call "GET" ("/api/v1/bench/nodes/" ++ node_hash ++ "/recommended-cap") null
        (some (field "tolerance_pct" tolerance_pct end))

  unfoldable pub submit_bench_bundle : Fields → Client → ApiResult × Client
  submit_bench_bundle bundle = call "POST" "/api/v1/bench/submissions" (dict bundle) none
