-- ===== src/Adapters/Fingerprint.antt =====
-- What the fingerprints of `hmasync_controller/adapters.py` depend on.
use async_energy_controller.Base.{String, false, List, [], ◌∷◌, str_eq, ◌≡◌, refl, text_length}
use async_energy_controller.Value.{Value, Fields, put, str, PyText, truthy}
use async_energy_controller.Value.Dict.{get-put, get-put_other}
use async_energy_controller.Adapters.Try.{done}
use async_energy_controller.Adapters.Request.{Platform, prompt_length, resolve_prompt}
use async_energy_controller.Adapters.Http.{HttpAdapter}
use async_energy_controller.Adapters.Ollama.{ollama_fingerprint}
use async_energy_controller.Adapters.OpenAi.{openai_fingerprint}

-- The fields of a request that decide what a job costs.
abbrev pub ollama_cost_keys : List String
ollama_cost_keys = "model" ∷ "options" ∷ "prompt" ∷ "prompt_file" ∷ "messages" ∷ []

abbrev pub openai_cost_keys : List String
openai_cost_keys = "model" ∷ "max_tokens" ∷ "n" ∷ "prompt" ∷ "prompt_file" ∷ "messages" ∷ []

abbrev pub NotAmong : String → List String → Type 0
NotAmong k [] = Unit
NotAmong k (j ∷ js) = (str_eq k j ≡ false) × NotAmong k js

module _ (texts : PyText) (platform : Platform) (adapter : HttpAdapter) where
  prompt_length-put :
      (k : String) (v : Value) (request : Fields)
      → NotAmong k ("prompt" ∷ "prompt_file" ∷ "messages" ∷ [])
      → prompt_length texts platform (put k v request) ≡ prompt_length texts platform request
  unfolding prompt_length resolve_prompt
  prompt_length-put k v request (a, (b, (c, _))) =
      rw
        (
          get-put_other "prompt" k v request a,
          get-put_other "prompt_file" k v request b,
          get-put_other "messages" k v request c,
        )
        refl

  -- A field that decides no cost, such as a seed, a time or a timeout, does not change the
  -- fingerprint.
  ollama_fingerprint-put :
      (k : String) (v : Value) (request : Fields)
      → NotAmong k ollama_cost_keys
      → ollama_fingerprint texts platform adapter (put k v request)
        ≡ ollama_fingerprint texts platform adapter request
  unfolding ollama_fingerprint
  ollama_fingerprint-put k v request (m, (o, (p, (f, (c, _))))) =
      rw
        (
          get-put_other "model" k v request m,
          get-put_other "options" k v request o,
          prompt_length-put k v request (p, (f, (c, tt))),
        )
        refl

  pub openai_fingerprint-put :
      (api_key k : String) (v : Value) (request : Fields)
      → NotAmong k openai_cost_keys
      → openai_fingerprint texts platform adapter api_key (put k v request)
        ≡ openai_fingerprint texts platform adapter api_key request
  unfolding openai_fingerprint
  openai_fingerprint-put api_key k v request (m, (t, (n, (p, (f, (c, _)))))) =
      rw
        (
          get-put_other "model" k v request m,
          get-put_other "max_tokens" k v request t,
          get-put_other "n" k v request n,
          prompt_length-put k v request (p, (f, (c, tt))),
        )
        refl

  -- An inline prompt counts by its length.
  prompt_length-inline :
      (p : String) (request : Fields)
      → str_eq p "" ≡ false
      → prompt_length texts platform (put "prompt" (str p) request) ≡ done (text_length p)
  unfolding prompt_length resolve_prompt truthy
  prompt_length-inline p request h = rw (get-put "prompt" (str p) request, h) refl

  -- Of an inline prompt only the length counts: two texts of the same length, neither empty, give
  -- the same fingerprint.
  ollama_fingerprint-prompt :
      (p q : String) (request : Fields)
      → str_eq p "" ≡ false
      → str_eq q "" ≡ false
      → text_length p ≡ text_length q
      → ollama_fingerprint texts platform adapter (put "prompt" (str p) request)
        ≡ ollama_fingerprint texts platform adapter (put "prompt" (str q) request)
  unfolding ollama_fingerprint
  ollama_fingerprint-prompt p q request hp hq same =
      rw
        (
          get-put_other "model" "prompt" (str p) request refl,
          get-put_other "model" "prompt" (str q) request refl,
          get-put_other "options" "prompt" (str p) request refl,
          get-put_other "options" "prompt" (str q) request refl,
          prompt_length-inline p request hp,
          prompt_length-inline q request hq,
          same,
        )
        refl
