-- ===== src/Reporter/Report.antt =====
-- `_push_bundle` and `report_run` of `hmasync_controller/reporter.py`: a report is delivered or
-- kept, never lost.
use async_energy_controller.Base.{
  String, ◌≡◌, ◌≢◌, ◌⊎◌, inl, inr, refl, true, false, not, some, List, [], ◌∷◌, arith, if_elim,
  if◌then◌else◌, Bool-cases,
}
use async_energy_controller.Base.Int.{ℤ}
use async_energy_controller.Value.{Value, null, list, items_of, is_null, PyText}
use async_energy_controller.Api.Response.{server_run_id}
use async_energy_controller.Spool.{Spool}
use async_energy_controller.Spool.Order.{IsBindable, enqueued, enqueue-eq}
use async_energy_controller.Reporter.{
  Uplink, ReportResult, Push, chunks, push_batches, push_bundle, report_run,
}
use async_energy_controller.Value.Encode.{is_plain}

is_null-ne-null : (v : Value) → is_null v ≡ false → v ≢ null
is_null-ne-null v h = λ e. ground arith

module _ {W : Type 0} (uplink : Uplink W) where
  open uplink use {send_run, send_samples}

  -- From `w` to `w'` each batch was sent, in order, and accepted.
  abbrev pub Sent : Value → List (List Value) → W → W → Type 0
  Sent sid [] w w' = w' ≡ w
  Sent sid (b ∷ bs) w w' =
      ((send_samples sid (items_of b) w).0.ok ≡ true)
      × Sent sid bs (send_samples sid (items_of b) w).1 w'

  -- The run was accepted under a server id, and every batch of its trace under that id.
  pub record Delivered (size : ℤ) (entry : Value) (samples : List Value) (w w' : W) : Type 0 where
    pub run_ok : (send_run entry w).0.ok ≡ true
    pub has_id : server_run_id (send_run entry w).0 ≢ null
    pub sent :
        Sent (server_run_id (send_run entry w).0) (chunks samples size) (send_run entry w).1 w'

  push_batches-Sent :
      (sid : Value) (batches : List (List Value)) (w : W)
      → (push_batches uplink sid batches w).0.ok ≡ true
      → Sent sid batches w (push_batches uplink sid batches w).1
  unfolding push_batches
  push_batches-Sent sid [] w h = refl
  push_batches-Sent sid (b ∷ bs) w h =
      let p = send_samples sid (items_of b) w in
      let ih = push_batches-Sent sid bs p.1 in ground (arith, ih)

  pub push_bundle-Delivered :
      (size : ℤ) (entry : Value) (samples : List Value) (w : W)
      → (push_bundle uplink size entry samples w).0.ok ≡ true
      → Delivered size entry samples w (push_bundle uplink size entry samples w).1
  unfolding push_bundle
  push_bundle-Delivered size entry samples w =
      let p = send_run entry w in
      let sid = server_run_id p.0 in
      let q = push_batches uplink sid (chunks samples size) p.1 in
      let Goal = λ (r : Push × W). r.0.ok ≡ true → Delivered size entry samples w r.1 in
      if_elim Goal (not p.0.ok) (_, p.1) (if is_null sid then (_, p.1) else q) (λ _ h. cc)
        (λ run_ok.
          if_elim Goal (is_null sid) (_, p.1) q (λ _ h. cc)
            (λ has_id h. record {
              run_ok = ground arith;
              has_id = is_null-ne-null sid has_id;
              sent = push_batches-Sent sid (chunks samples size) p.1 h;
            }))

  -- What a report came to: delivered, with the spool as it was, or kept behind all pending items.
  abbrev pub Accounted :
      ℤ → PyText → String → Value → List Value → W → Spool → ReportResult × W × Spool → Type 0
  Accounted size texts now entry samples w spool r =
      ((r.0.ok ≡ true) × (r.0.spooled ≡ false) × Delivered size entry samples w r.1 × (r.2 ≡ spool))
      ⊎ ((r.0.ok ≡ false) × (r.0.spooled ≡ true) × (r.2 ≡ enqueued texts now entry samples spool))

  -- Reporting a run without pydantic models, whose controller id and run id sqlite3 can bind (no lists, objects or
  -- integers beyond 64 bits), returns. Either the run and every batch of its trace
  -- were accepted and the spool is as it was, or the whole report stands in the spool behind all
  -- that was pending.
  pub report_run-Accounted :
      (size : ℤ) (texts : PyText) (now : String) (entry : Value) (samples : List Value) (w : W)
      (spool : Spool)
      → is_plain entry ≡ true
      → is_plain (list (items_of samples)) ≡ true
      → IsBindable texts entry
      → (r : ReportResult × W × Spool) × (report_run uplink size texts now entry samples w spool
          ≡ some r)
        × Accounted size texts now entry samples w spool r
  unfolding report_run
  report_run-Accounted size texts now entry samples w spool plain plains bindable =
      let p = push_bundle uplink size entry samples w in
      elim (Bool-cases p.0.ok) [
        | inl ok ↦ (
          (
            record { ok = true; spooled = false; server_run_id = p.0.server_id; error = null },
            p.1,
            spool,
          ),
          rw ok,
          inl (refl, refl, push_bundle-Delivered size entry samples w ok, refl),
        )
        | inr failed ↦ (
          (
            record { ok = false; spooled = true; server_run_id = null; error = p.0.error },
            p.1,
            enqueued texts now entry samples spool,
          ),
          rw (failed, enqueue-eq texts now entry samples spool plain plains bindable),
          inr (refl, refl, refl),
        )
      ]
