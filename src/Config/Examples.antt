-- ===== src/Config/Examples.antt =====
-- The theorems about the `.env` file, on a small one.
use async_energy_controller.Base.{true, String, List, [], ◌∷◌, ◌≡◌, refl, some}
use async_energy_controller.Base.{any}
use async_energy_controller.Config.{upsert_optin, set_bench_optin, sets_optin}
use async_energy_controller.Config.Upsert.{other_lines, Says, upsert_optin-Says}

abbrev env : List String
env = "# mine" ∷ " BENCH_OPTIN =false" ∷ "API_KEY=k" ∷ []

upsert_optin-Says_example :
    (other_lines (upsert_optin true env) ≡ other_lines env)
    × (any sets_optin (upsert_optin true env) ≡ true)
    × Says true (upsert_optin true env)
upsert_optin-Says_example = upsert_optin-Says true env

written : set_bench_optin (λ s. env) true (some "text") ≡ "# mine\nBENCH_OPTIN=true\nAPI_KEY=k\n"
unfolding set_bench_optin sets_optin
written = refl
