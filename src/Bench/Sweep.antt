-- ===== src/Bench/Sweep.antt =====
-- The power sweep of `hmasync_controller/bench/quick.py`: the caps that are derived for a card, and the
-- runs under them. The card and the runs are the interface `SweepWorld`; a limit is a whole number of
-- watts below 2 ^ 53.
pub mod Caps
pub mod Examples
use async_energy_controller.Base.{
  ℕ, zero, suc, ◌+◌, ◌^◌, max, min, Bool, true, false, not, ◌&&◌, ◌||◌, Option, none, some, List,
  [], ◌∷◌, ◌++◌, any, length, take, leb, ltb, ◌==◌, if◌then◌else◌,
}
use async_energy_controller.Base.Int.{pos}
use async_energy_controller.Value.{Float, finite}
use async_energy_controller.Value.Double.{true_quotient, multiply, half_even}

abbrev pub power_sweep_caps : List Float
power_sweep_caps = true_quotient 85 100 ∷ true_quotient 75 100 ∷ true_quotient 65 100 ∷ []

-- `round(x)` of a finite number that is not negative.
abbrev pub round_whole : Float → ℕ
round_whole (finite (pos n)) = half_even n (2 ^ 1074)
round_whole _ = 0

-- `round(stock_w * fraction)`.
unfoldable pub fraction_of : ℕ → Float → ℕ
unfolding true_quotient multiply
fraction_of stock_w fraction = round_whole (multiply (true_quotient stock_w 1) fraction)

-- Into the range, where both of its ends are known.
abbrev pub clamp : Option ℕ → Option ℕ → ℕ → ℕ
clamp (some min_w) (some max_w) watts = max min_w (min max_w watts)
clamp _ _ watts = watts

-- The loop over the fractions, with the caps so far.
unfoldable pub derive_caps : ℕ → Option ℕ → Option ℕ → List Float → List ℕ → List ℕ
unfolding fraction_of
derive_caps stock_w min_w max_w [] caps = caps
derive_caps stock_w min_w max_w (fraction ∷ fractions) caps =
    let watts = clamp min_w max_w (fraction_of stock_w fraction) in
    let next =
      if leb stock_w watts || any (λ w. w == watts) caps then caps else caps ++ watts ∷ [] in
    derive_caps stock_w min_w max_w fractions next

unfoldable pub derive_power_sweep_caps : ℕ → Option ℕ → Option ℕ → List ℕ
unfolding derive_caps true_quotient
derive_power_sweep_caps stock_w min_w max_w = derive_caps stock_w min_w max_w power_sweep_caps []

-- `R` is what a run of the task gives; `none` is an exception that it raises.
pub record SweepWorld (E R : Type 0) : Type 0 where
  pub get_default_limit : E → Option ℕ × E
  pub get_limit : E → Option ℕ × E
  pub get_constraints : E → (Option ℕ × Option ℕ) × E
  pub set_limit : ℕ → E → Option ℕ × E
  pub run_task : ℕ → E → Option R × E

pub record PowerSweepPoint (R : Type 0) : Type 0 where
  pub requested_w : ℕ
  pub confirmed_w : ℕ
  pub run : R

-- Why the sweep is skipped or short.
pub data Reason : Type 0 where
  no_stock_limit no_room no_privileges : Reason
  only : ℕ → Reason

-- The points and the reason; `none` is an exception of a run.
abbrev pub Swept : Type 0 → Type 0
Swept R = Option (List (PowerSweepPoint R) × Option Reason)

-- Where a cap is not confirmed: the first skips the sweep, a later one ends it.
abbrev pub stopped_early :
    {R : Type 0}
    → List (PowerSweepPoint R)
    → Option Reason
    → List (PowerSweepPoint R) × Option Reason
stopped_early [] reason = ([], some no_privileges)
stopped_early (p ∷ ps) reason = (p ∷ ps, reason)

module _ {E R : Type 0} (world : SweepWorld E R) where
  -- The loop over the caps, with the points so far.
  unfoldable pub sweep : List ℕ → Option Reason → List (PowerSweepPoint R) → E → Swept R × E
  sweep [] reason points e = (some (points, reason), e)
  sweep (watts ∷ caps) reason points e =
      let (confirmed, e') = world.set_limit watts e in
      elim confirmed [
        | none ↦ (some (stopped_early points reason), e')
        | some w ↦
            let (result, e'') = world.run_task w e' in
            elim result [
              | none ↦ (none, e'')
              | some r ↦
                  let point : PowerSweepPoint R = record {
                    requested_w = watts;
                    confirmed_w = w;
                    run = r;
                  } in
                  sweep caps reason (points ++ point ∷ []) e''
            ]
      ]

  abbrev pub at_most : Option ℕ → List ℕ → List ℕ
  at_most none caps = caps
  at_most (some n) caps = take n caps

  -- With the caps derived.
  unfoldable pub sweep_derived : Option ℕ → List ℕ → E → Swept R × E
  unfolding sweep
  sweep_derived max_points [] e = (some ([], some no_room), e)
  sweep_derived max_points (c ∷ caps) e =
      let reason : Option Reason =
        if ltb (length (c ∷ caps)) (length power_sweep_caps)
        then some (only (length (c ∷ caps)))
        else none in
      sweep (at_most max_points (c ∷ caps)) reason [] e

  -- The factory default, and where it is not read, the limit that is set.
  unfoldable pub stock_limit : E → Option ℕ × E
  stock_limit e =
      let (factory, e') = world.get_default_limit e in
      elim factory [ none ↦ world.get_limit e' | some w ↦ (some w, e') ]

  -- `caps_w` of the caller, or none.
  unfoldable pub run_power_sweep : Option (List ℕ) → Option ℕ → E → Swept R × E
  unfolding sweep sweep_derived stock_limit derive_power_sweep_caps
  run_power_sweep (some caps) max_points e = sweep (at_most max_points caps) none [] e
  run_power_sweep none max_points e =
      let (stock, e') = stock_limit e in
      elim stock [
        | none ↦ (some ([], some no_stock_limit), e')
        | some stock_w ↦
            let ((min_w, max_w), e'') = world.get_constraints e' in
            sweep_derived max_points (derive_power_sweep_caps stock_w min_w max_w) e''
      ]
