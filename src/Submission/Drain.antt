-- ===== src/Submission/Drain.antt =====
-- `drain_bench_spool` of `hmasync_controller/bench/submission.py`: the queued bundles are sent in
-- order, and one leaves the spool only when it was accepted or is malformed.
use async_energy_controller.Base.{
  ℕ, suc, ◌+◌, ◌≡◌, refl, Bool, true, false, Option, none, some, List, [], ◌∷◌, ◌++◌, map, arith,
  length, Bool-cases, Option-cases, ap, inl, inr, subst,
}
use async_energy_controller.Base.Int.{ℤ}
use async_energy_controller.Value.{Fields}
use async_energy_controller.Spool.{count, Row, Spool, limited, row_to_item}
use async_energy_controller.Spool.Order.{
  IsQueue, remove-head, pending-eq, IsQueue-tail, beyond_limit, limited-append,
}
use async_energy_controller.Submission.{
  Carrier, BenchDrainResult, bundle_of, drain_bundles, drain_bench_spool,
}

module _ {W : Type 0} (carrier : Carrier W) where
  abbrev bundle_in : Row → Option Fields
  bundle_in r = let item = row_to_item r in bundle_of item.entry

  abbrev sends : Fields → W → Bool × W
  sends bundle w = let p = carrier.send_bundle bundle w in (p.0.ok, p.1)

  -- `Flushed rows w n left w' stopped`: from `w`, the rows were taken in order up to `left`: the
  -- malformed ones were dropped, the bundles of the others sent and accepted, `n` of them; the
  -- flush stopped at the first that was not accepted, or at the end.
  pub data Flushed : List Row → W → ℕ → List Row → W → Bool → Type 0 where
    finished : {w : W} → Flushed [] w 0 [] w false
    refused :
        {r : Row} {rs : List Row} {w w' : W} {bundle : Fields}
        → bundle_in r ≡ some bundle
        → sends bundle w ≡ (false, w')
        → Flushed (r ∷ rs) w 0 (r ∷ rs) w' true
    dropped :
        {r : Row} {rs left : List Row} {w w' : W} {n : ℕ} {stopped : Bool}
        → bundle_in r ≡ none
        → Flushed rs w n left w' stopped
        → Flushed (r ∷ rs) w n left w' stopped
    sent :
        {r : Row} {rs left : List Row} {w w' w'' : W} {bundle : Fields} {n : ℕ} {stopped : Bool}
        → bundle_in r ≡ some bundle
        → sends bundle w ≡ (true, w')
        → Flushed rs w' n left w'' stopped
        → Flushed (r ∷ rs) w (suc n) left w'' stopped

  -- What a drain over the first rows `rows`, behind which `beyond` stand, comes to.
  pub record IsDrain (rows beyond : List Row) (sequence before : ℕ) (w : W)
      (r : BenchDrainResult × W × Spool) : Type 0 where
    pub left : List Row
    pub accepted : ℕ
    pub flush : Flushed rows w accepted left r.1 r.0.stopped_early
    pub kept : r.2 ≡ record { rows = left ++ beyond; sequence = sequence }
    pub drained : r.0.drained ≡ before + accepted
    pub remaining : r.0.remaining ≡ length (left ++ beyond)

  module _ (row : Row) (rows beyond : List Row) (sequence before : ℕ) (w : W) where
    IsDrain-dropped :
        (r : BenchDrainResult × W × Spool)
        → bundle_in row ≡ none
        → IsDrain rows beyond sequence before w r
        → IsDrain (row ∷ rows) beyond sequence before w r
    IsDrain-dropped r e d = record {
      left = d.left;
      accepted = d.accepted;
      flush = dropped e d.flush;
      kept = d.kept;
      drained = d.drained;
      remaining = d.remaining;
    }

    IsDrain-sent :
        (bundle : Fields) (w' : W) (r : BenchDrainResult × W × Spool)
        → bundle_in row ≡ some bundle
        → sends bundle w ≡ (true, w')
        → IsDrain rows beyond sequence (before + 1) w' r
        → IsDrain (row ∷ rows) beyond sequence before w r
    IsDrain-sent bundle w' r e done d = record {
      left = d.left;
      accepted = suc d.accepted;
      flush = sent e done d.flush;
      kept = d.kept;
      drained = omega (arith, d.drained);
      remaining = d.remaining;
    }

    abbrev whole : Spool
    whole = record { rows = row ∷ rows ++ beyond; sequence = sequence }

    IsDrain-refused :
        (bundle : Fields) (w' : W)
        → bundle_in row ≡ some bundle
        → sends bundle w ≡ (false, w')
        → IsDrain
            (row ∷ rows)
            beyond
            sequence
            before
            w
            (record { drained = before; remaining = count whole; stopped_early = true }, w', whole)
    unfolding count
    IsDrain-refused bundle w' e bad = record {
      left = row ∷ rows;
      accepted = 0;
      flush = refused e bad;
      kept = refl;
      drained = omega arith;
      remaining = refl;
    }

  drain_bundles-IsDrain :
      (rows beyond : List Row) (sequence before : ℕ) (w : W)
      → IsQueue (record { rows = rows ++ beyond; sequence = sequence })
      → IsDrain rows beyond sequence before w (
          drain_bundles carrier
            (map row_to_item rows)
            before
            w
            (record { rows = rows ++ beyond; sequence = sequence }))
  unfolding drain_bundles count row_to_item
  drain_bundles-IsDrain [] beyond sequence before w q = record {
    left = [];
    accepted = 0;
    flush = finished;
    kept = refl;
    drained = omega arith;
    remaining = refl;
  }
  drain_bundles-IsDrain (r ∷ rows) beyond sequence before w q =
      let q' = IsQueue-tail r (rows ++ beyond) sequence q in
      elim (Option-cases (bundle_of r.entry)) [
        | inl e ↦
            rw (drain_bundles, e, remove-head r (rows ++ beyond) sequence q)
              (IsDrain-dropped r rows beyond sequence before w _ e
                (drain_bundles-IsDrain rows beyond sequence before w q'))
        | inr (bundle, e) ↦
            let p = sends bundle w in
            elim (Bool-cases p.0) [
              | inl ok ↦
                  rw (drain_bundles, e, ok, remove-head r (rows ++ beyond) sequence q)
                    (IsDrain-sent r rows beyond sequence before w bundle p.1 _ e
                      (ap (λ (b : Bool). (b, p.1)) ok)
                      (drain_bundles-IsDrain rows beyond sequence (before + 1) p.1 q'))
              | inr bad ↦
                  rw (drain_bundles, e, bad)
                    (IsDrain-refused r rows beyond sequence before w bundle p.1 e
                      (ap (λ (b : Bool). (b, p.1)) bad))
            ]
      ]

  -- Draining a spool in queue order takes the queued bundles in order, up to the limit, until the
  -- first that is not accepted: a malformed item is dropped without a request, every other bundle
  -- is sent once. The accepted and the malformed ones leave the spool, all others stay in their
  -- order, and the counts of the result are those of the accepted and of the remaining items.
  pub drain_bench_spool-IsDrain :
      (limit : Option ℤ) (w : W) (spool : Spool)
      → IsQueue spool
      → IsDrain
          (limited limit spool.rows)
          (beyond_limit limit spool.rows)
          spool.sequence
          0
          w
          (drain_bench_spool carrier limit w spool)
  unfolding drain_bench_spool
  drain_bench_spool-IsDrain limit w spool q =
      let rows = limited limit spool.rows in
      let beyond = beyond_limit limit spool.rows in
      let whole : record { rows = rows ++ beyond; sequence = spool.sequence } ≡ spool =
        ap (λ (rs : List Row). record spool { rows = rs }) (limited-append limit spool.rows) in
      rw (pending-eq limit spool q) (
        subst
          (λ (s : Spool).
            IsQueue s
            → IsDrain rows beyond spool.sequence 0 w
                (drain_bundles carrier (map row_to_item rows) 0 w s))
          whole (drain_bundles-IsDrain rows beyond spool.sequence 0 w) q)
