-- ===== src/Sdk/Waits.antt =====
-- How long `Window.wait` of `hmasync_controller/sdk.py` waits.
use async_energy_controller.Base.{refl, ◌≡◌, ◌⊎◌, Option, none, some, arith, if◌then◌else◌, true}
use async_energy_controller.Base.Int.{ℤ, pos, pos_part, ◌+ℤ◌, ◌-ℤ◌, ◌≤ℤ◌, +ℤ_parts, -ℤ_parts, leb_ℤ}
use async_energy_controller.Sdk.Window.{
  Waited, capped, wait, until_start, Window, answered, crashed,
}
use async_energy_controller.Value.{PyText, DateTime}
use async_energy_controller.Executor.Schedule.{instant}

-- The wait for `start` from `now` on, with a cap or none.
pub record IsWait (start now : ℤ) (max_wait : Option ℤ) (w : Waited) : Type 0 where
  -- Without a cap the window is open afterwards.
  pub opens : max_wait ≡ none → start ≤ℤ now +ℤ w.delay
  pub within : (m : ℤ) → max_wait ≡ some m → w.delay ≤ℤ m
  -- The sleep is not longer than it has to be.
  pub needed : (w.delay ≤ℤ pos 0) ⊎ (now +ℤ w.delay ≤ℤ start)
  pub idle : w.slept ≡ none → w.delay ≤ℤ pos 0
  pub busy : (d : ℤ) → w.slept ≡ some d → (d ≡ w.delay) × (pos 1 ≤ℤ d)

-- The delay that `wait` computes without a cap.
abbrev full_delay : ℤ → ℤ → ℤ
full_delay start now = pos (pos_part (start -ℤ now))

full_delay-opens : (start now : ℤ) → start ≤ℤ now +ℤ full_delay start now
full_delay-opens start now = omega (arith, -ℤ_parts start now, +ℤ_parts now (full_delay start now))

-- A delay up to the full one does not go beyond the start.
within-needed :
    (start now delay : ℤ)
    → delay ≤ℤ full_delay start now
    → (delay ≤ℤ pos 0) ⊎ (now +ℤ delay ≤ℤ start)
unfolding ◌-ℤ◌
within-needed start now delay h = ground (arith, h, +ℤ_parts now delay)

capped-le : (max_wait : Option ℤ) (delay : ℤ) → capped max_wait delay ≤ℤ delay
capped-le none delay = omega arith
capped-le (some m) delay = ground arith

capped-within : (max_wait : Option ℤ) (delay m : ℤ) → max_wait ≡ some m → capped max_wait delay ≤ℤ m
capped-within none delay m h = absurd (cc h)
capped-within (some n) delay m h = ground (arith, h)

abbrev sleep_of : ℤ → Option ℤ
sleep_of delay = if leb_ℤ delay (pos 0) then none else some delay

idle_lem : (delay : ℤ) → sleep_of delay ≡ none → delay ≤ℤ pos 0
idle_lem delay h = ground arith

busy_lem : (delay d : ℤ) → sleep_of delay ≡ some d → (d ≡ delay) × (pos 1 ≤ℤ d)
busy_lem delay d h = ground arith

until_aware :
    (window : Window) (start now : DateTime) (offset : ℤ)
    → window.start ≡ some start
    → start.offset ≡ some offset
    → until_start window now ≡ some (pos_part (instant start -ℤ instant now))
unfolding until_start
until_aware window start now offset h aware = ground (arith, h, aware)

until_naive :
    (window : Window) (start now : DateTime)
    → window.start ≡ some start
    → start.offset ≡ none
    → until_start window now ≡ none
unfolding until_start
until_naive window start now h naive = ground (arith, h, naive)

-- In a feasible window with an aware start, `wait` returns: after a wait without a cap the window is open, no wait takes
-- longer than the cap or than to the start of the window, and it sleeps for the delay that it returns,
-- if that is above 0, and else not at all. A naive start makes it raise instead.
pub wait-IsWait :
    (texts : PyText) (max_wait : Option ℤ) (window : Window) (start now : DateTime)
    → window.feasible ≡ true
    → window.start ≡ some start
    → ((offset : ℤ)
        → start.offset ≡ some offset
        → (w : Waited) × (wait texts max_wait window now ≡ answered w)
          × IsWait (instant start) (instant now) max_wait w)
      × (start.offset ≡ none → wait texts max_wait window now ≡ crashed)
unfolding wait
wait-IsWait texts max_wait window start now h k =
    let full = full_delay (instant start) (instant now) in
    let delay = capped max_wait full in
    (
      λ offset aware. (
        record { delay = delay; slept = sleep_of delay },
        rw (h, until_aware window start now offset k aware) refl,
        record {
          opens = λ (e : max_wait ≡ none). rw e (full_delay-opens (instant start) (instant now));
          within = λ m e. capped-within max_wait full m e;
          needed = within-needed (instant start) (instant now) delay (capped-le max_wait full);
          idle = idle_lem delay;
          busy = busy_lem delay;
        },
      ),
      λ naive. rw (h, until_naive window start now k naive) refl,
    )
