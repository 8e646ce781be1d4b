-- ===== src/PowerCap/Bracket.antt =====
-- `apply` and `restore` of `hmasync_controller/powercap.py` around one job: what becomes of the
-- limit of the card.
use async_energy_controller.Base.{refl, ◌≡◌, ◌≢◌, Option, none, some, arith, ◌∙◌, if_ind, not, ap}
use async_energy_controller.Value.{Float}
use async_energy_controller.PowerCap.{
  raised, returned, preserve, CapWorld, Manager, returned, Call, set_cap, read_and_set, done,
  Status, with_prior, apply_cap, recommended_cap_w, apply, restore, preserve, skipped_error,
  skipped_no_gpu, restore_prior,
}

-- A driver keeps its word: reading changes nothing and reads the limit that is set, an accepted
-- write sets the limit to the written one, as the driver rounds it (to whole milliwatts), and a refused
-- one leaves it. A limit that is set is one that the rounding leaves as it is.
pub record IsDriver {E : Type 0} (world : CapWorld E) (rounded : Float → Float) (limit : E → Float)
    : Type 0 where
  pub settled : (e : E) → rounded (limit e) ≡ limit e
  pub now_keeps : (e : E) → limit (world.now e).1 ≡ limit e
  pub fetch_keeps : (e : E) → limit (world.fetch e).1 ≡ limit e
  pub default_keeps : (e : E) → limit (world.get_default e).1 ≡ limit e
  pub limit_keeps : (e : E) → limit (world.get_limit e).1 ≡ limit e
  pub limit_reads : (e : E) (w : Float) → (world.get_limit e).0 ≡ returned (some w) → w ≡ limit e
  pub set_done :
      (w : Float) (e : E)
      → (world.set_limit w e).0 ≡ done
      → limit (world.set_limit w e).1 ≡ rounded w
  pub set_refused :
      (w : Float) (e : E) → (world.set_limit w e).0 ≢ done → limit (world.set_limit w e).1 ≡ limit e

-- The limit `original` is in force, or kept for `restore`.
abbrev pub Held : Float → Option Float → Float → Type 0
Held original none current = current ≡ original
Held original (some prior) current = prior ≡ original

module _ {E : Type 0} (world : CapWorld E) (rounded : Float → Float) (limit : E → Float)
    (driver : IsDriver world rounded limit) where
  open driver use {
    settled, now_keeps, fetch_keeps, default_keeps, limit_keeps, limit_reads, set_done, set_refused,
  }

  abbrev Safe : Float → Call Status × Manager × E → Type 0
  Safe original r = Held original r.1.prior_limit (limit r.2)

  set_cap-Safe :
      (original cap_w prior : Float) (m : Manager) (e : E)
      → m.prior_limit ≡ none
      → prior ≡ original
      → limit e ≡ original
      → Safe original (set_cap world cap_w prior m e)
  unfolding set_cap
  set_cap-Safe original cap_w prior m e fresh found now =
      ground (arith, set_refused cap_w e, set_done cap_w e)

  with_prior-Safe :
      (original cap_w : Float) (read : Call (Option Float)) (m : Manager) (e : E)
      → m.prior_limit ≡ none
      → ((w : Float) → read ≡ returned (some w) → w ≡ original)
      → limit e ≡ original
      → Safe original (with_prior world cap_w read m e)
  unfolding with_prior
  with_prior-Safe original cap_w raised m e fresh reads now = rw fresh now
  with_prior-Safe original cap_w (returned none) m e fresh reads now = rw fresh now
  with_prior-Safe original cap_w (returned (some prior)) m e fresh reads now =
      set_cap-Safe original cap_w prior m e fresh (reads prior refl) now

  read_and_set-Safe :
      (original cap_w : Float) (m : Manager) (e : E)
      → m.prior_limit ≡ none
      → limit e ≡ original
      → Safe original (read_and_set world cap_w m e)
  unfolding read_and_set
  read_and_set-Safe original cap_w m e fresh now =
      with_prior-Safe original cap_w (world.get_limit e).0 m (world.get_limit e).1 fresh
        (λ w h. limit_reads e w h ∙ now) (limit_keeps e ∙ now)

  apply_cap-Safe :
      (original : Float) (found : Call (Option Float)) (m : Manager) (e : E)
      → m.prior_limit ≡ none
      → limit e ≡ original
      → Safe original (apply_cap world found m e)
  unfolding apply_cap
  apply_cap-Safe original raised m e fresh now = rw fresh now
  apply_cap-Safe original (returned none) m e fresh now = rw fresh now
  apply_cap-Safe original (returned (some cap_w)) m e fresh now =
      read_and_set-Safe original cap_w m e fresh now

  -- Looking the recommendation up changes neither the limit nor what is kept of it.
  recommended-keeps :
      (m : Manager) (e : E)
      → ((recommended_cap_w world m e).1.prior_limit ≡ m.prior_limit)
        × (limit (recommended_cap_w world m e).2 ≡ limit e)
  unfolding recommended_cap_w
  recommended-keeps m e = ground (arith, now_keeps e, fetch_keeps (world.now e).1)

  apply-Safe : (m : Manager) (e : E) → m.prior_limit ≡ none → Safe (limit e) (apply world m e)
  unfolding apply
  apply-Safe m e fresh =
      let (found, m', e') = recommended_cap_w world m e in
      let (kept, same) = recommended-keeps m e in
      if_ind (Safe (limit e)) (not m.nvml) (returned skipped_no_gpu, m, e)
        (apply_cap world found m' e') (rw fresh refl)
        (apply_cap-Safe (limit e) found m' e' (kept ∙ fresh) same)

  restore_prior-back :
      (original : Float) (kept : Option Float) (e : E)
      → rounded original ≡ original
      → Held original kept (limit e)
      → (restore_prior world preserve kept e).0 ≢ returned skipped_error
      → limit (restore_prior world preserve kept e).1 ≡ original
  unfolding restore_prior
  restore_prior-back original none e whole held ok = held
  restore_prior-back original (some prior) e whole held ok =
      ground (arith, set_done prior e, ap rounded held)

  policy-apply : (m : Manager) (e : E) → (apply world m e).1.policy ≡ m.policy
  unfolding apply
  policy-apply m e = ground arith

  -- Around a job, with nothing kept before it and a driver that keeps its word and does not
  -- round a limit that was in force, `restore` under
  -- the policy "preserve" puts the card back to exactly the limit that `apply` met, whatever
  -- `apply` did and even if it raised, unless the driver refuses the write that puts it back.
  -- Nothing is kept for a later job.
  pub apply-restore :
      (m : Manager) (e : E)
      → m.policy ≡ preserve
      → m.prior_limit ≡ none
      → let a = apply world m e in
        let r = restore world a.1 a.2 in
        (r.0 ≢ returned skipped_error → limit r.2 ≡ limit e) × (r.1.prior_limit ≡ none)
  unfolding restore
  apply-restore m e policy fresh =
      let a = apply world m e in
      (
        rw (policy-apply m e ∙ policy)
            (restore_prior-back (limit e) a.1.prior_limit a.2 (settled e) (apply-Safe m e fresh)),
        refl,
      )
