-- ===== src/Reporter/Drain.antt =====
-- `drain_spool` of `hmasync_controller/reporter.py`: the spool is flushed in order, and an item
-- leaves it only when its report was delivered.
use async_energy_controller.Base.{
  ℕ, ◌+◌, ◌≡◌, refl, Bool, true, false, Option, List, [], ◌∷◌, ◌++◌, map, arith, length, Bool-cases,
  ap, inl, subst, inr,
}
use async_energy_controller.Base.Int.{ℤ}
use async_energy_controller.Spool.{count, Row, Spool, limited, row_to_item}
use async_energy_controller.Spool.Order.{
  beyond_limit, limited-append, IsQueue, remove-head, pending-eq, IsQueue-tail,
}
use async_energy_controller.Reporter.{
  Uplink, DrainResult, push_bundle, drain_items, drain_spool, count,
}

module _ {W : Type 0} (uplink : Uplink W) (size : ℤ) where
  abbrev pub push_row : Row → W → Bool × W
  push_row r w =
      let item = row_to_item r in
      let p = push_bundle uplink size item.entry item.samples w in (p.0.ok, p.1)

  -- `Flushed rows w left w' stopped`: from `w`, the rows were pushed in order up to `left`, which
  -- is all that was pushed successfully; the flush stopped at the first row that failed, or at
  -- the end.
  pub data Flushed : List Row → W → List Row → W → Bool → Type 0 where
    finished : {w : W} → Flushed [] w [] w false
    failed :
        {r : Row} {rs : List Row} {w w' : W}
        → push_row r w ≡ (false, w')
        → Flushed (r ∷ rs) w (r ∷ rs) w' true
    pushed :
        {r : Row} {rs left : List Row} {w w' w'' : W} {stopped : Bool}
        → push_row r w ≡ (true, w')
        → Flushed rs w' left w'' stopped
        → Flushed (r ∷ rs) w left w'' stopped

  -- What a drain over the first rows `rows`, behind which `beyond` stand, comes to.
  pub record IsDrain (rows beyond : List Row) (n before : ℕ) (w : W) (r : DrainResult × W × Spool)
      : Type 0 where
    pub left : List Row
    pub flush : Flushed rows w left r.1 r.0.stopped_early
    pub kept : r.2 ≡ record { rows = left ++ beyond; sequence = n }
    pub drained : r.0.drained + length left ≡ before + length rows
    pub remaining : r.0.remaining ≡ length (left ++ beyond)

  IsDrain-pushed :
      (row : Row) (rows beyond : List Row) (n before : ℕ) (w w' : W) (r : DrainResult × W × Spool)
      → push_row row w ≡ (true, w')
      → IsDrain rows beyond n (before + 1) w' r
      → IsDrain (row ∷ rows) beyond n before w r
  IsDrain-pushed row rows beyond n before w w' r done d = record {
    left = d.left;
    flush = pushed done d.flush;
    kept = d.kept;
    drained = omega (arith, d.drained);
    remaining = d.remaining;
  }

  drain_items-IsDrain :
      (rows beyond : List Row) (n before : ℕ) (w : W)
      → IsQueue (record { rows = rows ++ beyond; sequence = n })
      → IsDrain rows beyond n before w (
          drain_items uplink size
            (map row_to_item rows)
            before
            w
            (record { rows = rows ++ beyond; sequence = n }))
  unfolding drain_items count row_to_item
  drain_items-IsDrain [] beyond n before w q = record {
    left = [];
    flush = finished;
    kept = refl;
    drained = refl;
    remaining = refl;
  }
  drain_items-IsDrain (r ∷ rows) beyond n before w q =
      let p = push_row r w in
      let q' = IsQueue-tail r (rows ++ beyond) n q in
      elim (Bool-cases p.0) [
        | inl ok ↦
            rw (ok, remove-head r (rows ++ beyond) n q)
              (IsDrain-pushed r rows beyond n before w p.1 _ (ap (λ (b : Bool). (b, p.1)) ok)
                (drain_items-IsDrain rows beyond n (before + 1) p.1 q'))
        | inr bad ↦ rw bad (record {
          left = r ∷ rows;
          flush = failed (ap (λ (b : Bool). (b, p.1)) bad);
          kept = refl;
          drained = refl;
          remaining = refl;
        })
      ]

  -- Draining a spool in queue order pushes the pending reports in order, up to the limit, until
  -- the first that is not accepted; the delivered ones leave the spool, all others stay in their
  -- order, and the counts of the result are those of the delivered and of the remaining reports.
  pub drain_spool-IsDrain :
      (limit : Option ℤ) (w : W) (spool : Spool)
      → IsQueue spool
      → IsDrain
          (limited limit spool.rows)
          (beyond_limit limit spool.rows)
          spool.sequence
          0
          w
          (drain_spool uplink size limit w spool)
  unfolding drain_spool
  drain_spool-IsDrain limit w spool q =
      let rows = limited limit spool.rows in
      let beyond = beyond_limit limit spool.rows in
      let whole : record { rows = rows ++ beyond; sequence = spool.sequence } ≡ spool =
        ap (λ (rs : List Row). record spool { rows = rs }) (limited-append limit spool.rows) in
      rw (pending-eq limit spool q) (
        subst
          (λ (s : Spool).
            IsQueue s
            → IsDrain rows beyond spool.sequence 0 w
                (drain_items uplink size (map row_to_item rows) 0 w s))
          whole (drain_items-IsDrain rows beyond spool.sequence 0 w) q)
