-- ===== src/Bench/Thermal/Pause.antt =====
-- The pause of `hmasync_controller/bench/thermal.py` ends, and how.
use async_energy_controller.Base.{
  ℕ, zero, suc, ◌+◌, ◌-◌, ◌*◌, ◌≤◌, ◌≡◌, refl, true, Option, some, leb, arith, if_elim,
  if◌then◌else◌,
}
use async_energy_controller.Base.Int.{ℤ, pos, ◌≤ℤ◌, leb_ℤ, eqb_ℤ}
use async_energy_controller.Bench.Thermal.{
  consecutive_hw_thermal, ThermalWorld, Reaction, untouched, resumed, aborted, pause,
  maybe_pause_for_thermal_throttle, or_constant, hw_thermal_sustained, thermal_pause_poll,
  thermal_pause_timeout,
}

-- What the clock does, by the time that it shows in a state: no call turns it back, and a sleep takes at
-- least as long as was asked for.
pub record Clocked {E : Type 0} (world : ThermalWorld E) (time : E → ℕ) : Type 0 where
  pub shows : (e : E) → (world.monotonic e).0 ≡ time e
  pub reads : (e : E) → time e ≤ time (world.monotonic e).1
  pub samples : (e : E) → time e ≤ time (world.get_samples e).1
  pub sleeps : (d : ℕ) (e : E) → time e + d ≤ time (world.sleep d e)

module _ {E : Type 0} (world : ThermalWorld E) where
  -- The trace that the sampler showed last.
  abbrev Shown : (ℤ → Type 0) → E → Type 0
  Shown P e =
      (before : E) × ((world.get_samples before).1 ≡ e)
      × P (consecutive_hw_thermal (world.get_samples before).0)

  -- A reaction, with the state after it, that is called for.
  pub IsCalledFor : ℕ → ℕ → Reaction × E → Type 0
  IsCalledFor threshold timeout (untouched, e) = Shown (λ n. n ≤ℤ pos threshold) e
  IsCalledFor threshold timeout (resumed, e) = Shown (λ n. n ≡ pos 0) e
  IsCalledFor threshold timeout (aborted elapsed, e) = timeout ≤ elapsed

  module _ (time : E → ℕ) (clock : Clocked world time) (threshold poll timeout : ℕ) where
    abbrev Ends : Option (Reaction × E) → Type 0
    Ends o = (r : Reaction × E) × (o ≡ some r) × IsCalledFor threshold timeout r

    timed_out-Ends :
        (start : ℕ) (e : E)
        → leb (start + timeout) (world.monotonic e).0 ≡ true
        → Ends (some (aborted ((world.monotonic e).0 - start), (world.monotonic e).1))
    unfolding IsCalledFor
    timed_out-Ends start e h =
        ((aborted ((world.monotonic e).0 - start), (world.monotonic e).1), refl, ground arith)

    cleared-Ends :
        (e : E)
        → eqb_ℤ (consecutive_hw_thermal (world.get_samples e).0) (pos 0) ≡ true
        → Ends (some (resumed, (world.get_samples e).1))
    unfolding IsCalledFor
    cleared-Ends e h = ((resumed, (world.get_samples e).1), refl, (e, refl, ground arith))

    -- A round lasts at least `poll`, so the rounds that are left reach the end of the pause.
    pause-Ends :
        (fuel start : ℕ) (e : E)
        → start + timeout ≤ time e + fuel * poll
        → Ends (pause world (suc fuel) poll timeout start e)
    unfolding pause
    pause-Ends zero start e h =
        let late : leb (start + timeout) (world.monotonic e).0 ≡ true =
          ground (arith, clock.shows e) in
        rw late (timed_out-Ends start e late)
    pause-Ends (suc fuel) start e h =
        let slept = world.sleep poll (world.monotonic e).1 in
        let shown = world.get_samples slept in
        let later : start + timeout ≤ time shown.1 + fuel * poll =
          omega
            (arith, clock.reads e, clock.sleeps poll (world.monotonic e).1, clock.samples slept) in
        let rest = pause world (suc fuel) poll timeout start shown.1 in
        let calm = eqb_ℤ (consecutive_hw_thermal shown.0) (pos 0) in
        let go_on : Option (Reaction × E) = if calm then some (resumed, shown.1) else rest in
        if_elim Ends (leb (start + timeout) (world.monotonic e).0)
          (some (aborted ((world.monotonic e).0 - start), (world.monotonic e).1)) go_on
          (timed_out-Ends start e)
          (λ _.
            if_elim Ends calm (some (resumed, shown.1)) rest (cleared-Ends slept)
              (λ _. pause-Ends fuel start shown.1 later))

  -- Where no call turns the clock back and a sleep takes at least as long as was asked for, the guard
  -- returns or raises within `timeout` divided by the poll interval rounds and one: it lets the items
  -- run on where the trace that it read last shows no more than the threshold, or after a pause, none;
  -- and it raises only with a stated time of at least the timeout.
  pub maybe_pause-Ends :
      (time : E → ℕ)
      → Clocked world time
      → (threshold poll timeout : Option ℕ) (fuel : ℕ) (e : E)
      → or_constant timeout thermal_pause_timeout ≤ fuel * or_constant poll thermal_pause_poll
      → (r : Reaction × E) × (maybe_pause_for_thermal_throttle world
            (suc fuel)
            threshold
            poll
            timeout
            e
          ≡ some r)
        × IsCalledFor
            (or_constant threshold hw_thermal_sustained)
            (or_constant timeout thermal_pause_timeout)
            r
  unfolding maybe_pause_for_thermal_throttle IsCalledFor
  maybe_pause-Ends time clock threshold poll timeout fuel e h =
      let limit = or_constant threshold hw_thermal_sustained in
      let end = or_constant timeout thermal_pause_timeout in
      let step = or_constant poll thermal_pause_poll in
      let shown = world.get_samples e in
      let started = world.monotonic shown.1 in
      let enough : started.0 + end ≤ time started.1 + fuel * step =
        omega (arith, clock.shows shown.1, clock.reads shown.1) in
      if_elim (Ends time clock limit step end) (leb_ℤ (consecutive_hw_thermal shown.0) (pos limit))
        (some (untouched, shown.1)) (pause world (suc fuel) step end started.0 started.1)
        (λ b. ((untouched, shown.1), refl, (e, refl, ground arith)))
        (λ _. pause-Ends time clock limit step end fuel started.0 started.1 enough)
