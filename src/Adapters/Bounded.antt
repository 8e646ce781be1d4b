-- ===== src/Adapters/Bounded.antt =====
-- The one request that a run of an HTTP adapter of `hmasync_controller/adapters.py` makes: how long
-- it may take, and what becomes of its failure.
use Prim.Native.String.{◌++◌}
use async_energy_controller.Base.{
  if_ind, ap, String, Option, none, some, ◌≡◌, refl, ◌⊎◌, inl, inr, ℕ, ◌≤◌, arith, leb,
}
use async_energy_controller.Value.{Float, Value, null, str, int, dict, Fields, PyText}
use async_energy_controller.Adapters.Try.{Try, done, refused, raised, >>=-eq-done}
use async_energy_controller.Adapters.Request.{Platform, timeout_of}
use async_energy_controller.Adapters.Http.{
  Posted, received, failed, safe_json, Call, timed_post, AdapterRunResult, failure, Answer,
  answered, timed_out, broken, Http, HttpAdapter, posted, Post, post_run, timeout_for, or_default,
  failed, received,
}
use async_energy_controller.Adapters.Ollama.{ollama_run, ollama_post, ollama_call, ollama_result}
use async_energy_controller.Adapters.OpenAi.{openai_run, openai_post, openai_call, openai_result}
use async_energy_controller.Base.Int.{pos}

-- A connection that fails, an HTTP error, or a body that is no JSON.
abbrev pub Fails : Answer → Type 0
Fails timed_out = Unit
Fails (broken exc) = Unit
Fails (answered status text json) = (400 ≤ status) ⊎ (json ≡ none)

abbrev taken : (Value → Try AdapterRunResult) → Posted → Try AdapterRunResult
taken finish (failed r) = done r
taken finish (received v) = finish v

module _ (texts : PyText) where
  abbrev http_failure : ℕ → String → Option Value → AdapterRunResult
  http_failure status text json =
      failure (int (pos status)) (safe_json text json)
        (str ("HTTP " ++ texts.format (int (pos status))))

  timeout_for-eq :
      (adapter : HttpAdapter) (request : Fields) (t : Option Float)
      → timeout_for texts adapter request ≡ done t
      → (declared : Option Float) × (timeout_of texts request ≡ done declared)
        × (t ≡ or_default declared adapter.timeout)
  unfolding timeout_for
  timeout_for-eq adapter request t h =
      let (declared, e, k) =
        >>=-eq-done (timeout_of texts request) (λ d. done (or_default d adapter.timeout)) h in
      (declared, e, ground arith)

  -- A run leaves the server alone, or it makes one call, with the timeout that the request declares
  -- and else that of the adapter.
  abbrev pub IsBounded : {E : Type 0} → Http E → HttpAdapter → Fields → E → E → Type 0
  IsBounded http adapter request e e' =
      (e' ≡ e)
      ⊎ ((call : Post) × (declared : Option Float) × (timeout_of texts request ≡ done declared)
          × (call.timeout ≡ or_default declared adapter.timeout)
          × (e' ≡ (http.post call.url (dict call.payload) call.timeout call.headers e).1))

  post_run-IsBounded :
      {E : Type 0} (http : Http E) (adapter : HttpAdapter) (finish : Value → Try AdapterRunResult)
      (request : Fields) (e : E) (call : Try Post)
      → ((c : Post)
          → call ≡ done c
          → (declared : Option Float) × (timeout_of texts request ≡ done declared)
            × (c.timeout ≡ or_default declared adapter.timeout))
      → IsBounded http adapter request e (post_run http texts finish call e).1
  unfolding post_run
  post_run-IsBounded http adapter finish request e (refused message) h = inl refl
  post_run-IsBounded http adapter finish request e raised h = inl refl
  post_run-IsBounded http adapter finish request e (done c) h =
      let (declared, t, k) = h c refl in inr (c, declared, t, k, refl)

  posted-error :
      (answer : Answer)
      → Fails answer
      → (r : AdapterRunResult) × (posted texts answer ≡ failed r) × (r.exit_status ≡ "error")
  unfolding posted
  posted-error timed_out h = (_, refl, refl)
  posted-error (broken exc) h = (_, refl, refl)
  posted-error (answered status text none) h =
      if_ind (λ (p : Posted). (r : AdapterRunResult) × (p ≡ failed r) × (r.exit_status ≡ "error"))
        (leb 400 status) (failed (http_failure status text none))
        (failed (failure null null (str "response was not JSON"))) (_, refl, refl) (_, refl, refl)
  posted-error (answered status text (some v)) (inr parsed) = cc
  posted-error (answered status text (some v)) (inl high) =
      (http_failure status text (some v), ground arith, refl)

  -- Where the connection fails, the status is an error or the body is no JSON, a run that makes a
  -- call returns a result with the exit status "error": none of these is an exception.
  post_run-error :
      {E : Type 0} (http : Http E) (finish : Value → Try AdapterRunResult) (call : Post) (e : E)
      → Fails (http.post call.url (dict call.payload) call.timeout call.headers e).0
      → (r : AdapterRunResult) × ((post_run http texts finish (done call) e).0 ≡ done r)
        × (r.exit_status ≡ "error")
  unfolding post_run
  post_run-error http finish call e h =
      let answer = (http.post call.url (dict call.payload) call.timeout call.headers e).0 in
      let (r, is_failed, status) = posted-error answer h in
      (r, ap (λ (p : Posted). taken finish p) is_failed, status)

  timed_post-timeout :
      (adapter : HttpAdapter) (request : Fields) (prepared : Try Call) (c : Post)
      → timed_post texts adapter request prepared ≡ done c
      → (declared : Option Float) × (timeout_of texts request ≡ done declared)
        × (c.timeout ≡ or_default declared adapter.timeout)
  unfolding timed_post timeout_for
  timed_post-timeout adapter request (refused message) c h = cc
  timed_post-timeout adapter request raised c h = cc
  timed_post-timeout adapter request (done call) c h =
      let (t, e, k) = >>=-eq-done (timeout_for texts adapter request) _ h in
      let (declared, d, l) = timeout_for-eq adapter request t e in (declared, d, ground arith)

  -- A run of an HTTP adapter makes no call, or one: with the timeout that the request declares, and
  -- else with that of the adapter.
  run-IsBounded :
      {E : Type 0} (platform : Platform) (http : Http E) (adapter : HttpAdapter) (api_key : String)
      (request : Fields) (e : E)
      → IsBounded http adapter request e (ollama_run texts platform adapter http request e).1
        × IsBounded http adapter request e
            (openai_run texts platform adapter api_key http request e).1
  unfolding ollama_run openai_run ollama_post openai_post
  run-IsBounded platform http adapter api_key request e = (
    post_run-IsBounded http adapter (ollama_result texts platform adapter) request e
        (ollama_post texts platform adapter request)
        (timed_post-timeout adapter request (ollama_call texts platform adapter request)),
    post_run-IsBounded http adapter (openai_result texts platform adapter api_key) request e
        (openai_post texts platform adapter api_key request)
        (timed_post-timeout adapter request (openai_call texts platform adapter api_key request)),
  )
