-- ===== src/Bench/Sweep/Caps.antt =====
-- What the derived caps of the power sweep in `hmasync_controller/bench/quick.py` are.
use async_energy_controller.Base.{
  All-take, take, Option-cases, inl, inr, ℕ, ◌≤◌, ◌<◌, ◌≡◌, refl, Bool, true, false, ◌||◌, Option,
  none, some, List, [], ◌∷◌, ◌++◌, any, All, All-append, leb, ◌==◌, arith, if_elim, if◌then◌else◌,
}
use async_energy_controller.Value.{Float}
use async_energy_controller.Bench.Sweep.{
  SweepWorld, PowerSweepPoint, Reason, Swept, sweep, sweep_derived, stock_limit, run_power_sweep,
  stopped_early, clamp, fraction_of, derive_caps, derive_power_sweep_caps, power_sweep_caps,
}

-- A cap below the stock limit, and in the range if both of its ends are known.
pub record IsCap (stock_w : ℕ) (min_w max_w : Option ℕ) (w : ℕ) : Type 0 where
  pub below : w < stock_w
  pub at_least : (a b : ℕ) → min_w ≡ some a → max_w ≡ some b → a ≤ w
  pub at_most : (a b : ℕ) → min_w ≡ some a → max_w ≡ some b → a ≤ b → w ≤ b

-- No number stands twice in the list.
abbrev pub Distinct : List ℕ → Type 0
Distinct [] = Unit
Distinct (w ∷ ws) = (any (λ v. v == w) ws ≡ false) × Distinct ws

clamp-IsCap :
    (stock_w : ℕ) (min_w max_w : Option ℕ) (watts : ℕ)
    → leb stock_w (clamp min_w max_w watts) ≡ false
    → IsCap stock_w min_w max_w (clamp min_w max_w watts)
clamp-IsCap stock_w (some a) (some b) watts h = record {
  below = ground arith;
  at_least = λ c d p q. let e : a ≡ c = cc p in omega arith;
  at_most = λ c d p q r. let e : a ≡ c = cc p in let f : b ≡ d = cc q in omega arith;
}
clamp-IsCap stock_w none max_w watts h = record {
  below = ground arith;
  at_least = λ c d p q. absurd (cc p);
  at_most = λ c d p q r. absurd (cc p);
}
clamp-IsCap stock_w (some a) none watts h = record {
  below = ground arith;
  at_least = λ c d p q. absurd (cc q);
  at_most = λ c d p q r. absurd (cc q);
}

or_first : (a b : Bool) → (a || b) ≡ false → a ≡ false
or_first true b h = h
or_first false b h = refl

or_second : (a b : Bool) → (a || b) ≡ false → b ≡ false
or_second true b h = absurd (cc h)
or_second false b h = h

any-snoc :
    (x w : ℕ) (ws : List ℕ)
    → any (λ v. v == x) ws ≡ false
    → (x == w) ≡ false
    → any (λ v. v == x) (ws ++ w ∷ []) ≡ false
any-snoc x w [] h k = ground arith
any-snoc x w (y ∷ ws) h k = ground (arith, any-snoc x w ws)

Distinct-snoc :
    (w : ℕ) (ws : List ℕ) → any (λ v. v == w) ws ≡ false → Distinct ws → Distinct (ws ++ w ∷ [])
Distinct-snoc w [] h d = (refl, tt)
Distinct-snoc w (x ∷ ws) h d =
    (any-snoc x w ws d.0 (ground arith), Distinct-snoc w ws (ground arith) d.1)

derive_caps-IsCap :
    (stock_w : ℕ) (min_w max_w : Option ℕ) (fractions : List Float) (caps : List ℕ)
    → All (IsCap stock_w min_w max_w) caps
    → Distinct caps
    → All (IsCap stock_w min_w max_w) (derive_caps stock_w min_w max_w fractions caps)
      × Distinct (derive_caps stock_w min_w max_w fractions caps)
unfolding derive_caps
derive_caps-IsCap stock_w min_w max_w [] caps h d = (h, d)
derive_caps-IsCap stock_w min_w max_w (fraction ∷ fractions) caps h d =
    let watts = clamp min_w max_w (fraction_of stock_w fraction) in
    let is_taken = any (λ w. w == watts) caps in
    let more = caps ++ watts ∷ [] in
    let (h', d') =
      if_elim (λ (l : List ℕ). All (IsCap stock_w min_w max_w) l × Distinct l)
        (leb stock_w watts || is_taken) caps more (λ _. (h, d))
        (λ e. (
          All-append (IsCap stock_w min_w max_w) caps (watts ∷ []) h
              (clamp-IsCap stock_w min_w max_w (fraction_of stock_w fraction) (or_first _ _ e), tt),
          Distinct-snoc watts caps (or_second _ _ e) d,
        )) in
    derive_caps-IsCap stock_w min_w max_w fractions
      (if leb stock_w watts || is_taken then caps else more) h' d'

-- Every derived cap lies below the stock limit of the card, and in the range that the card supports, if
-- that range is known and not empty; and no cap is derived twice.
derive_power_sweep_caps-IsCap :
    (stock_w : ℕ) (min_w max_w : Option ℕ)
    → All (IsCap stock_w min_w max_w) (derive_power_sweep_caps stock_w min_w max_w)
      × Distinct (derive_power_sweep_caps stock_w min_w max_w)
unfolding derive_power_sweep_caps
derive_power_sweep_caps-IsCap stock_w min_w max_w =
    derive_caps-IsCap stock_w min_w max_w power_sweep_caps [] tt tt

module _ {E R : Type 0} (world : SweepWorld E R) where
  -- A property of the watts that the points of a sweep were asked for.
  abbrev pub Asks : (ℕ → Type 0) → Swept R × E → Type 0
  Asks P (none, e) = Unit
  Asks P (some (points, reason), e) = All (λ p. P p.requested_w) points

  stopped-Asks :
      (P : ℕ → Type 0) (points : List (PowerSweepPoint R)) (reason : Option Reason) (e : E)
      → All (λ p. P p.requested_w) points
      → Asks P (some (stopped_early points reason), e)
  stopped-Asks P [] reason e k = tt
  stopped-Asks P (p ∷ points) reason e k = k

  sweep-Asks :
      (P : ℕ → Type 0) (caps : List ℕ) (reason : Option Reason) (points : List (PowerSweepPoint R))
      (e : E)
      → All P caps
      → All (λ p. P p.requested_w) points
      → Asks P (sweep world caps reason points e)
  unfolding sweep
  sweep-Asks P [] reason points e h k = k
  sweep-Asks P (watts ∷ caps) reason points e h k =
      let limited = world.set_limit watts e in
      elim (Option-cases limited.0) [
        | inl stop ↦ rw (sweep, stop) (stopped-Asks P points reason limited.1 k)
        | inr (w, go) ↦
            let ran = world.run_task w limited.1 in
            elim (Option-cases ran.0) [
              | inl crash ↦ rw (sweep, go, crash) tt
              | inr (r, done) ↦
                  let point : PowerSweepPoint R = record {
                    requested_w = watts;
                    confirmed_w = w;
                    run = r;
                  } in
                  rw (sweep, go, done)
                    (sweep-Asks P caps reason (points ++ point ∷ []) ran.1 h.1 (
                      All-append (λ (p : PowerSweepPoint R). P p.requested_w) points (point ∷ []) k
                        (h.0, tt)))
            ]
      ]

  derived-Asks :
      (P : ℕ → Type 0) (max_points : Option ℕ) (caps : List ℕ) (e : E)
      → All P caps
      → Asks P (sweep_derived world max_points caps e)
  unfolding sweep_derived
  derived-Asks P max_points [] e h = tt
  derived-Asks P none (c ∷ caps) e h = sweep-Asks P (c ∷ caps) _ [] e h tt
  derived-Asks P (some n) (c ∷ caps) e h =
      sweep-Asks P (take n (c ∷ caps)) _ [] e (All-take P n (c ∷ caps) h) tt

  -- Where a stock limit is read and the caller names no caps, whatever the card then answers and
  -- the runs give, every point of the sweep was asked for below that stock limit, and in the range
  -- that the card gave, if that range is known and not empty.
  pub run_power_sweep-IsCap :
      (max_points : Option ℕ) (e : E) (stock_w : ℕ)
      → (stock_limit world e).0 ≡ some stock_w
      → let (range, _) = world.get_constraints (stock_limit world e).1 in
        Asks (IsCap stock_w range.0 range.1) (run_power_sweep world none max_points e)
  unfolding run_power_sweep sweep_derived
  run_power_sweep-IsCap max_points e stock_w h =
      let stock = stock_limit world e in
      let (range, e') = world.get_constraints stock.1 in
      rw (run_power_sweep, h)
        (derived-Asks (IsCap stock_w range.0 range.1) max_points
          (derive_power_sweep_caps stock_w range.0 range.1) e'
          (derive_power_sweep_caps-IsCap stock_w range.0 range.1).0)
