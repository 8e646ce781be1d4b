-- ===== src/Adapters/Examples.antt =====
-- The helpers of the adapters, on small requests.
use async_energy_controller.Base.{List, [], ◌∷◌, ◌≡◌, refl, true}
use async_energy_controller.Value.{Value, str, dict, field, end, get}
use async_energy_controller.Adapters.{model_installed}

abbrev tags : List Value
tags = dict (field "name" (str "llama3:70b") end) ∷ str "qwen:7b" ∷ []

-- Another size of the model is taken for it.
other_tag : model_installed "llama3:8b" tags ≡ true
unfolding model_installed get
other_tag = refl
