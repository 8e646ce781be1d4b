-- ===== src/Bench/Roster/Largest.antt =====
-- A tier measures the largest models of `hmasync_controller/bench/roster.py` that fit a box.
use async_energy_controller.Base.{
  ℕ, ◌≡◌, ◌⊎◌, true, false, Option, none, some, List, [], ◌∷◌, All, length, ◌≤◌,
}
use async_energy_controller.Value.{Float}
use async_energy_controller.Value.Double.{is_less}
use async_energy_controller.Bench.Roster.{RosterEntry, roster, fits}

-- Not larger than.
abbrev pub IsAtMost : RosterEntry → RosterEntry → Type 0
IsAtMost d e = is_less e.size_gb d.size_gb ≡ false

pub data Among : RosterEntry → List RosterEntry → Type 0 where
  here : {e : RosterEntry} {es : List RosterEntry} → Among e (e ∷ es)
  there : {d e : RosterEntry} {es : List RosterEntry} → Among d es → Among d (e ∷ es)

-- From the largest on.
abbrev Descends : List RosterEntry → Type 0
Descends [] = Unit
Descends (e ∷ es) = All (λ d. IsAtMost d e) es × Descends es

-- It is among the chosen ones, or none of these is smaller.
abbrev pub Outdone : RosterEntry → List RosterEntry → Type 0
Outdone d chosen = Among d chosen ⊎ All (λ e. IsAtMost d e) chosen

abbrev Within : Option ℕ → List RosterEntry → Type 0
Within none es = Unit
Within (some n) es = length es ≤ n

-- What a tier measures with a budget.
pub record IsLargest (budget : Option Float) (count : Option ℕ) (chosen : List RosterEntry)
    : Type 0 where
  pub fitting : All (λ e. fits budget e ≡ true) chosen
  pub within : Within count chosen
  pub largest : (d : RosterEntry) → Among d roster → fits budget d ≡ true → Outdone d chosen
