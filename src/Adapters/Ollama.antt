-- ===== src/Adapters/Ollama.antt =====
-- `OllamaAdapter` of `hmasync_controller/adapters.py`.
use Prim.Native.String.{◌++◌}
use async_energy_controller.Base.{
  String, Bool, true, false, Option, none, some, List, leb, if◌then◌else◌, not,
}
use async_energy_controller.Value.{
  Value, null, bool, str, dict, Fields, end, field, get, put, truthy, PyText,
}
use async_energy_controller.Adapters.{model_installed}
use async_energy_controller.Adapters.Try.{Try, done, raised, ◌>>=◌}
use async_energy_controller.Adapters.Request.{
  Platform, require, resolve_prompt, prompt_length, bucket, stable_hash, iteration,
}
use async_energy_controller.Adapters.Http.{
  AdapterRunResult, Answer, answered, timed_out, broken, Http, HttpAdapter, base_of, Post, Call,
  timed_post, post_run, count_units, success,
}
use async_energy_controller.Base.Int.{pos}
use async_energy_controller.Value.{int}

-- `request.get("options")` where it is an object, else the empty one.
abbrev pub options_of : Value → Fields
options_of (dict fs) = fs
options_of _ = end

abbrev pub with_options : Fields → Fields → Fields
with_options end payload = payload
with_options (field k v fs) payload = put "options" (dict (field k v fs)) payload

-- The fields of a response; another value has no `get`.
abbrev pub fields_of : Value → Try Fields
fields_of (dict fs) = done fs
fields_of _ = raised

module _ (texts : PyText) (platform : Platform) (adapter : HttpAdapter) where
  -- The address and the payload.
  abbrev pub ollama_payload : Value → String → Fields → Value → Try (String × Fields)
  ollama_payload name base request null = do
    prompt ← resolve_prompt texts platform request
    done (
      base ++ "/api/generate",
      field "model" name (field "prompt" (str prompt) (field "stream" (bool false) end)),
    )
  ollama_payload name base request messages = done (
    base ++ "/api/chat",
    field "model" name (field "messages" messages (field "stream" (bool false) end)),
  )

  unfoldable pub ollama_call : Fields → Try Call
  unfolding require base_of resolve_prompt
  ollama_call request = do
    name ← require request "model"
    (url, payload) ← ollama_payload name (base_of adapter request) request (get "messages" request)
    done (record {
      url = url;
      payload = with_options (options_of (get "options" request)) payload;
      headers = end;
    })

  unfoldable pub ollama_post : Fields → Try Post
  unfolding ollama_call timed_post
  ollama_post request = timed_post texts adapter request (ollama_call request)

  unfoldable pub ollama_result : Value → Try AdapterRunResult
  unfolding count_units
  ollama_result v = do
    data_fields ← fields_of v
    units ← count_units (get "eval_count" data_fields)
    done (success units v)

  -- `OllamaAdapter.run`.
  unfoldable pub ollama_run : {E : Type 0} → Http E → Fields → E → Try AdapterRunResult × E
  unfolding ollama_post ollama_result post_run
  ollama_run http request e = post_run http texts ollama_result (ollama_post request) e

  -- `OllamaAdapter.fingerprint`.
  unfoldable pub ollama_fingerprint : Fields → Try (String × Fields)
  unfolding require prompt_length bucket stable_hash
  ollama_fingerprint request = do
    name ← require request "model"
    let options = options_of (get "options" request)
    prompt ← prompt_length texts platform request
    prompt_bucket ← bucket texts platform (int (pos prompt))
    predict ← bucket texts platform (get "num_predict" options)
    context ← bucket texts platform (get "num_ctx" options)
    batch ← bucket texts platform (get "num_batch" options)
    let features = field "framework" (str "ollama") (
        field "model" name (
          field "prompt_bucket" prompt_bucket (
            field "num_predict_bucket" predict
              (field "num_ctx_bucket" context (field "batch_bucket" batch end)))))
    done (stable_hash texts platform features, features)

  abbrev pub installed_in : String → Option (List Value) → Try Bool
  installed_in name none = raised
  installed_in name (some installed) = done (model_installed name installed)

  -- With the body of the list of models. A model that is no text has no `split`.
  abbrev pub ollama_has : Value → Option Value → Try Bool
  ollama_has (str name) (some (dict fs)) = installed_in name (iteration (get "models" fs))
  ollama_has name (some (dict fs)) = raised
  ollama_has name _ = done false

  unfoldable pub ollama_ready : Value → Answer → Try Bool
  unfolding truthy iteration model_installed
  ollama_ready name timed_out = done false
  ollama_ready name (broken exc) = done false
  ollama_ready name (answered status text json) =
      if leb 400 status
      then done false
      else if not (truthy name)
      then done true
      else ollama_has name json

  -- `OllamaAdapter.preflight`; a request of `None` is the empty one.
  unfoldable pub ollama_preflight : {E : Type 0} → Http E → Fields → E → Try Bool × E
  unfolding ollama_ready base_of
  ollama_preflight http request e =
      let (answer, e') =
        http.fetch (base_of adapter request ++ "/api/tags") adapter.preflight_timeout end e in
      (ollama_ready (get "model" request) answer, e')
