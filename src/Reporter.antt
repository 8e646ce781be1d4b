-- ===== src/Reporter.antt =====
-- `hmasync_controller/reporter.py`: reporting runs, with the spool as a fallback. The API client
-- enters by the two calls that the reporter makes, the interface `Uplink`; `api_uplink` fills it.
pub mod Chunks
pub mod Report
pub mod Drain
mod Examples
use async_energy_controller.Base.{
  ℕ, zero, suc, ◌+◌, String, Bool, true, false, not, Option, none, some, List, [], ◌∷◌, map, drop,
  take, ltb, length, if◌then◌else◌,
}
use async_energy_controller.Base.Int.{ℤ, pos, negsuc}
use async_energy_controller.Value.{Value, null, str, Items, items_of, is_null, PyText}
use async_energy_controller.Api.Response.{ApiResult, server_run_id}
use async_energy_controller.Api.Client.{Client, Network}
use async_energy_controller.Api.Endpoints.{push_run, push_samples}
use async_energy_controller.Spool.{Spool, SpoolItem, enqueue, remove, pending, count}

-- What the reporter needs of an API client with a state `W`.
pub record Uplink (W : Type 0) : Type 0 where
  pub send_run : Value → W → ApiResult × W
  pub send_samples : Value → Items → W → ApiResult × W

abbrev pub api_uplink : PyText → Network → Uplink Client
api_uplink texts network = record {
  send_run = push_run texts network;
  send_samples = push_samples texts network;
}

abbrev pub sample_batch_size : ℤ
sample_batch_size = pos 5000

pub record ReportResult : Type 0 where
  pub ok : Bool
  pub spooled : Bool
  pub server_run_id : Value
  pub error : Value

pub record DrainResult : Type 0 where
  pub drained : ℕ
  pub remaining : ℕ
  pub stopped_early : Bool
  pub error : Value

-- The tuple `(ok, server_id, error, transport_error)`.
pub record Push : Type 0 where
  pub ok : Bool
  pub server_id : Value
  pub error : Value
  pub transport_error : Bool

-- `range(start, stop, step)`, for a positive step; `fuel` bounds its length.
unfoldable pub range_step : ℕ → ℕ → ℕ → ℕ → List ℕ
range_step zero start stop step = []
range_step (suc fuel) start stop step =
    let rest = range_step fuel (start + step) stop step in
    if ltb start stop then start ∷ rest else []

-- `items[i : i + size]`.
abbrev pub slice {ℓ} : {A : Type ℓ} → ℕ → List A → ℕ → List A
slice size xs i = take size (drop i xs)

unfoldable pub chunks {ℓ} : {A : Type ℓ} → List A → ℤ → List (List A)
unfolding range_step
chunks [] (pos zero) = []
chunks (x ∷ xs) (pos zero) = (x ∷ xs) ∷ []
chunks [] (negsuc n) = []
chunks (x ∷ xs) (negsuc n) = (x ∷ xs) ∷ []
chunks xs (pos (suc k)) = map (slice (suc k) xs) (range_step (length xs) 0 (length xs) (suc k))

module _ {W : Type 0} (uplink : Uplink W) where
  open uplink use {send_run, send_samples}

  -- The loop over the batches of one trace.
  unfoldable pub push_batches : Value → List (List Value) → W → Push × W
  push_batches sid [] w =
      (record { ok = true; server_id = sid; error = null; transport_error = false }, w)
  push_batches sid (batch ∷ batches) w =
      let (result, w') = send_samples sid (items_of batch) w in
      let rest = push_batches sid batches w' in
      if not result.ok
      then (
        record {
          ok = false;
          server_id = sid;
          error = result.error;
          transport_error = result.transport_error;
        },
        w',
      )
      else rest

  unfoldable pub push_bundle : ℤ → Value → List Value → W → Push × W
  push_bundle batch_size entry samples w =
      let (result, w') = send_run entry w in
      let sid = server_run_id result in
      if not result.ok
      then (
        record {
          ok = false;
          server_id = null;
          error = result.error;
          transport_error = result.transport_error;
        },
        w',
      )
      else if is_null sid
      then (
        record {
          ok = false;
          server_id = null;
          error = str "run push returned no server id";
          transport_error = false;
        },
        w',
      )
      else push_batches sid (chunks samples batch_size) w'

  -- `none` is the `TypeError` of a report that cannot be stored. `samples` is a list; the empty
  -- list stands for `None` too, as `samples or []` has it.
  unfoldable pub report_run :
      ℤ → PyText → String → Value → List Value → W → Spool → Option (ReportResult × W × Spool)
  report_run batch_size texts now entry samples w spool =
      let (push, w') = push_bundle batch_size entry samples w in
      if push.ok
      then some (
        record { ok = true; spooled = false; server_run_id = push.server_id; error = null },
        w',
        spool,
      )
      else elim (enqueue texts now entry samples spool) [
        | none ↦ none
        | some (_, spool') ↦ some (
          record { ok = false; spooled = true; server_run_id = null; error = push.error },
          w',
          spool',
        )
      ]

  -- The loop of `drain_spool` over the pending items, with the count so far.
  unfoldable pub drain_items : ℤ → List SpoolItem → ℕ → W → Spool → DrainResult × W × Spool
  drain_items batch_size [] drained w spool = (
    record { drained = drained; remaining = count spool; stopped_early = false; error = null },
    w,
    spool,
  )
  drain_items batch_size (item ∷ items) drained w spool =
      let (push, w') = push_bundle batch_size item.entry item.samples w in
      let rest = drain_items batch_size items (drained + 1) w' (remove item.id spool) in
      if not push.ok
      then (
        record {
          drained = drained;
          remaining = count spool;
          stopped_early = true;
          error = push.error;
        },
        w',
        spool,
      )
      else rest

  unfoldable pub drain_spool : ℤ → Option ℤ → W → Spool → DrainResult × W × Spool
  unfolding drain_items
  drain_spool batch_size max_items w spool =
      drain_items batch_size (pending max_items spool) 0 w spool
