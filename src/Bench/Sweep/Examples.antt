-- ===== src/Bench/Sweep/Examples.antt =====
-- Runs of the power sweep.
use async_energy_controller.Base.{ℕ, ◌≡◌, refl, none, some, [], ◌∷◌}
use async_energy_controller.Value.Double.{multiply}
use async_energy_controller.Bench.Sweep.{
  derive_power_sweep_caps, SweepWorld, stock_limit, run_power_sweep, no_privileges,
}
use async_energy_controller.Bench.Sweep.Caps.{IsCap, Asks, run_power_sweep-IsCap}

caps : derive_power_sweep_caps 300 none none ≡ 255 ∷ 225 ∷ 195 ∷ []
unfolding derive_power_sweep_caps multiply
caps = refl

clamped : derive_power_sweep_caps 300 (some 240) (some 320) ≡ 255 ∷ 240 ∷ []
unfolding derive_power_sweep_caps multiply
clamped = refl

-- A card that takes no limit.
abbrev locked : SweepWorld ℕ ℕ
locked = record {
  get_default_limit = λ e. (some 300, e);
  get_limit = λ e. (none, e);
  get_constraints = λ e. ((none, none), e);
  set_limit = λ w e. (none, w);
  run_task = λ w e. (some w, e);
}

unprivileged : run_power_sweep locked none none 0 ≡ (some ([], some no_privileges), 255)
unfolding run_power_sweep multiply
unprivileged = refl

-- A card that takes every limit, and a run that draws as many watts.
abbrev open_card : SweepWorld ℕ ℕ
open_card = record {
  get_default_limit = λ e. (none, e);
  get_limit = λ e. (some 300, e);
  get_constraints = λ e. ((some 240, some 320), e);
  set_limit = λ w e. (some w, w);
  run_task = λ w e. (some w, e);
}

stock : (stock_limit open_card 0).0 ≡ some 300
unfolding stock_limit
stock = refl

run_power_sweep-IsCap_example :
    Asks open_card (IsCap 300 (some 240) (some 320)) (run_power_sweep open_card none (some 2) 0)
run_power_sweep-IsCap_example = run_power_sweep-IsCap open_card (some 2) 0 300 stock
