-- ===== src/Bench/Roster/Examples.antt =====
-- Runs of the choice of models.
use async_energy_controller.Base.{◌≡◌, refl, some, [], ◌∷◌, map}
use async_energy_controller.Value.Double.{true_quotient, is_less}
use async_energy_controller.Bench.Roster.{
  RosterEntry, quick, medium, fits, roster_for_tier, select_roster,
}

-- A card of 6 GB.
small_card :
    map (λ (e : RosterEntry). e.tag) (roster_for_tier medium (some (true_quotient 50 10)))
    ≡ "llama3.1:8b-instruct-q4_K_M" ∷ "qwen2.5:7b-instruct-q4_K_M" ∷ "qwen3.5:4b-q4_K_M"
      ∷ "qwen3.5:2b-q4_K_M" ∷ []
unfolding roster_for_tier fits is_less true_quotient
small_card = refl

reference :
    map
      (λ (e : RosterEntry). e.tag)
      (select_roster quick ("qwen3.5:9b-q4_K_M" ∷ []) (some (true_quotient 1 1))).0
    ≡ "qwen3.5:9b-q4_K_M" ∷ []
unfolding select_roster
reference = refl
