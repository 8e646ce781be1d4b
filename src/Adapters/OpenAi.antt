-- ===== src/Adapters/OpenAi.antt =====
-- `OpenAICompatAdapter` of `hmasync_controller/adapters.py`.
use Prim.Native.String.{◌++◌}
use async_energy_controller.Base.{
  String, Bool, true, false, not, ◌||◌, ◌&&◌, Option, none, some, List, [], ◌∷◌, any, leb, ◌==◌,
  str_eq, if◌then◌else◌,
}
use async_energy_controller.Base.Int.{pos}
use async_energy_controller.Value.{
  Value, null, int, str, list, dict, nil, cons, Fields, end, field, get, put, has_key, truthy,
  PyText,
}
use async_energy_controller.Value.Equal.{py_eq}
use async_energy_controller.Adapters.Try.{Try, done, raised, ◌>>=◌}
use async_energy_controller.Adapters.Request.{
  Platform, require, resolve_prompt, prompt_length, bucket, stable_hash, iteration,
}
use async_energy_controller.Adapters.Http.{
  AdapterRunResult, Answer, answered, timed_out, broken, Http, HttpAdapter, base_of, Post, Call,
  timed_post, post_run, count_units, success,
}
use async_energy_controller.Adapters.Ollama.{options_of, fields_of}

-- `for key in (…): if key in request: payload[key] = request[key]`.
unfoldable pub copy_keys : List String → Fields → Fields → Fields
copy_keys [] request payload = payload
copy_keys (k ∷ ks) request payload =
    copy_keys ks request (if has_key k request then put k (get k request) payload else payload)

abbrev pub copied_keys : List String
copied_keys = "max_tokens" ∷ "temperature" ∷ "top_p" ∷ "n" ∷ "stop" ∷ []

-- `ids = {entry.get("id") for entry in data if isinstance(entry, dict)}`.
abbrev pub ids_of : List Value → List Value
ids_of [] = []
ids_of (dict fs ∷ vs) = get "id" fs ∷ ids_of vs
ids_of (_ ∷ vs) = ids_of vs

-- A list and an object cannot stand in a set.
abbrev pub is_hashable : Value → Bool
is_hashable (list vs) = false
is_hashable (dict fs) = false
is_hashable _ = true

abbrev pub all_hashable : List Value → Bool
all_hashable [] = true
all_hashable (v ∷ vs) = is_hashable v && all_hashable vs

module _ (texts : PyText) (platform : Platform) (adapter : HttpAdapter) (api_key : String) where
  -- `_headers`; an `api_key` of `None` is the empty one.
  unfoldable pub headers : Fields
  headers =
      if str_eq api_key "" then end else field "Authorization" (str ("Bearer " ++ api_key)) end

  abbrev pub prompt_message : String → Value
  prompt_message prompt =
      list (cons (dict (field "role" (str "user") (field "content" (str prompt) end))) nil)

  abbrev pub messages_of : Fields → Value → Try Value
  messages_of request null =
      if has_key "prompt" request || has_key "prompt_file" request
      then resolve_prompt texts platform request >>= (λ prompt. done (prompt_message prompt))
      else done null
  messages_of request messages = done messages

  abbrev pub or_nil : Value → Value
  or_nil v = if truthy v then v else list nil

  unfoldable pub openai_call : Fields → Try Call
  unfolding require base_of resolve_prompt copy_keys headers truthy
  openai_call request = do
    name ← require request "model"
    messages ← messages_of request (get "messages" request)
    done (record {
      url = base_of adapter request ++ "/chat/completions";
      payload =
          copy_keys copied_keys request
            (field "model" name (field "messages" (or_nil messages) end));
      headers = headers;
    })

  unfoldable pub openai_post : Fields → Try Post
  unfolding openai_call timed_post
  openai_post request = timed_post texts adapter request (openai_call request)

  unfoldable pub openai_result : Value → Try AdapterRunResult
  unfolding count_units
  openai_result v = do
    data_fields ← fields_of v
    units ← count_units (get "completion_tokens" (options_of (get "usage" data_fields)))
    done (success units v)

  -- `OpenAICompatAdapter.run`.
  unfoldable pub openai_run : {E : Type 0} → Http E → Fields → E → Try AdapterRunResult × E
  unfolding openai_post openai_result post_run
  openai_run http request e = post_run http texts openai_result (openai_post request) e

  -- `OpenAICompatAdapter.fingerprint`.
  unfoldable pub openai_fingerprint : Fields → Try (String × Fields)
  unfolding require prompt_length bucket stable_hash
  openai_fingerprint request = do
    name ← require request "model"
    prompt ← prompt_length texts platform request
    prompt_bucket ← bucket texts platform (int (pos prompt))
    tokens ← bucket texts platform (get "max_tokens" request)
    count ← bucket texts platform (get "n" request)
    let features = field "framework" (str "openai") (
        field "model" name (
          field "prompt_bucket" prompt_bucket
            (field "max_tokens_bucket" tokens (field "n_bucket" count end))))
    done (stable_hash texts platform features, features)

  -- `not ids or model in ids`, with the building of the set.
  abbrev pub listed_in : Value → List Value → Try Bool
  listed_in name [] = done true
  listed_in name (i ∷ ids) =
      if all_hashable (i ∷ ids) && is_hashable name
      then done (any (λ j. py_eq name j) (i ∷ ids))
      else raised

  abbrev pub listed : Value → Option (List Value) → Try Bool
  listed name none = raised
  listed name (some vs) = listed_in name (ids_of vs)

  -- With the body of the list of models; one that is no object lists nothing.
  abbrev pub openai_has : Value → Option Value → Try Bool
  openai_has name (some (dict fs)) = listed name (iteration (get "data" fs))
  openai_has name _ = done true

  unfoldable pub openai_ready : Value → Answer → Try Bool
  unfolding truthy iteration py_eq
  openai_ready name timed_out = done false
  openai_ready name (broken exc) = done false
  openai_ready name (answered status text json) =
      if leb 400 status
      then done ((status == 404) || (status == 405) || (status == 501))
      else if not (truthy name)
      then done true
      else openai_has name json

  -- `OpenAICompatAdapter.preflight`; a request of `None` is the empty one.
  unfoldable pub openai_preflight : {E : Type 0} → Http E → Fields → E → Try Bool × E
  unfolding openai_ready base_of headers
  openai_preflight http request e =
      let (answer, e') =
        http.fetch (base_of adapter request ++ "/models") adapter.preflight_timeout headers e in
      (openai_ready (get "model" request) answer, e')
