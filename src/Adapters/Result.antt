-- ===== src/Adapters/Result.antt =====
-- What the results of the adapters in `hmasync_controller/adapters.py` say.
use Prim.Native.String.{◌++◌}
use async_energy_controller.Base.{
  String, Bool, true, false, Option, none, some, ◌≡◌, ◌≢◌, refl, ◌⊎◌, inl, inr, if_ind, leb,
  if◌then◌else◌,
}
use async_energy_controller.Value.{
  Value, null, str, float, bool, int, dict, Fields, PyText, get, Float,
}
use async_energy_controller.Adapters.Try.{Try, done, refused, raised, ◌>>=◌}
use async_energy_controller.Adapters.Request.{Platform}
use async_energy_controller.Adapters.Http.{
  AdapterRunResult, failure, success, Answer, answered, timed_out, broken, Http, HttpAdapter,
  posted, Posted, received, failed, Post, post_run, count_units, parsed_or_failed, safe_json,
}
use async_energy_controller.Adapters.Command.{
  expired, not_found, os_error, failed_otherwise, exited, Shell, ProcessEnd, Command,
  command_result, run_command, command_run, command_of, not_found, os_error, exited, exited_result,
}
use async_energy_controller.Adapters.Ollama.{ollama_run, ollama_post, ollama_result, options_of}
use async_energy_controller.Adapters.OpenAi.{openai_run, openai_post, openai_result}
use async_energy_controller.Base.Int.{pos, ℤ, eqb_ℤ}
use async_energy_controller.Adapters.{
  work_from, declared_work, with_kind, converted, float_of_int, truthy,
}

-- A result is a success with no detail or an error with one, and it has a kind of work units
-- exactly if it has work units.
pub record IsReport (r : AdapterRunResult) : Type 0 where
  pub status :
      ((r.exit_status ≡ "success") × (r.detail ≡ null))
      ⊎ ((r.exit_status ≡ "error") × (r.detail ≢ null))
  pub work :
      ((r.work_units ≡ null) × (r.work_unit_kind ≡ null))
      ⊎ ((r.work_units ≢ null) × (r.work_unit_kind ≢ null))

abbrev status_text : Bool → String
status_text succeeded = if succeeded then "success" else "error"

-- Work units with their kind.
abbrev pub Works : Value × Value → Type 0
Works (units, kind) = ((units ≡ null) × (kind ≡ null)) ⊎ ((units ≢ null) × (kind ≢ null))

-- What is returned, if anything is.
abbrev pub Reports : Try AdapterRunResult → Type 0
Reports (done r) = IsReport r
Reports (refused message) = Unit
Reports raised = Unit

failure-IsReport :
    (exit_code output detail : Value) → detail ≢ null → IsReport (failure exit_code output detail)
failure-IsReport exit_code output detail h = record {
  status = inr (refl, h);
  work = inl (refl, refl);
}

success-IsReport : (units output : Value) → IsReport (success units output)
success-IsReport null output = record { status = inl (refl, refl); work = inl (refl, refl) }
success-IsReport units output = record {
  status = inl (refl, refl);
  work = inr ((λ h. cc), λ h. cc);
}

module _ (texts : PyText) where
  abbrev PostedReports : Posted → Type 0
  PostedReports (received v) = Unit
  PostedReports (failed r) = IsReport r

  posted-Reports : (answer : Answer) → PostedReports (posted texts answer)
  unfolding posted
  posted-Reports timed_out = failure-IsReport null null _ (λ h. cc)
  posted-Reports (broken exc) = failure-IsReport null null _ (λ h. cc)
  posted-Reports (answered status text json) =
      if_ind PostedReports (leb 400 status) (failed (failure _ (safe_json text json) _))
        (parsed_or_failed json)
        (failure-IsReport (int (pos status)) (safe_json text json)
          (str ("HTTP " ++ texts.format (int (pos status)))) (λ h. cc))
        (parsed-Reports json)
    where
      parsed-Reports : (j : Option Value) → PostedReports (parsed_or_failed j)
      parsed-Reports none = failure-IsReport null null _ (λ h. cc)
      parsed-Reports (some v) = tt

  -- A run that makes one call reports if what it makes of a good answer does.
  post_run-Reports :
      {E : Type 0} (http : Http E) (finish : Value → Try AdapterRunResult) (call : Try Post) (e : E)
      → ((v : Value) → Reports (finish v))
      → Reports (post_run http texts finish call e).0
  unfolding post_run
  post_run-Reports http finish (refused message) e h = tt
  post_run-Reports http finish raised e h = tt
  post_run-Reports http finish (done call) e h =
      finished (posted texts answer) (posted-Reports answer)
    where
      answer : Answer
      answer = (http.post call.url (dict call.payload) call.timeout call.headers e).0

      finished :
          (p : Posted)
          → PostedReports p
          → Reports (elim p [ failed r ↦ done r | received v ↦ finish v ])
      finished (failed r) k = k
      finished (received v) k = h v

  -- From work units on.
  counted-Reports : (units : Try Value) (v : Value) → Reports (units >>= (λ u. done (success u v)))
  counted-Reports (done u) v = success-IsReport u v
  counted-Reports (refused message) v = tt
  counted-Reports raised v = tt

  ollama_result-Reports :
      (platform : Platform) (adapter : HttpAdapter) (v : Value)
      → Reports (ollama_result texts platform adapter v)
  unfolding ollama_result
  ollama_result-Reports platform adapter (dict fs) =
      counted-Reports (count_units (get "eval_count" fs)) (dict fs)
  ollama_result-Reports platform adapter _ = tt

  openai_result-Reports :
      (platform : Platform) (adapter : HttpAdapter) (api_key : String) (v : Value)
      → Reports (openai_result texts platform adapter api_key v)
  unfolding openai_result
  openai_result-Reports platform adapter api_key (dict fs) =
      counted-Reports (count_units (get "completion_tokens" (options_of (get "usage" fs))))
        (dict fs)
  openai_result-Reports platform adapter api_key _ = tt

  status_of :
      (succeeded : Bool) (message : String)
      → ((status_text succeeded ≡ "success") × ((if succeeded then null else str message) ≡ null))
        ⊎ ((status_text succeeded ≡ "error") × ((if succeeded then null else str message) ≢ null))
  status_of true message = inl (refl, refl)
  status_of false message = inr (refl, λ h. cc)

  kind-Works : (request : Fields) (x : Float) → Works (with_kind texts request x)
  kind-Works request x = inr (
    (λ h. cc),
    if_ind (λ (k : Value). k ≢ null) (truthy (get "work_unit_kind" request))
        (str (texts.format (get "work_unit_kind" request))) (str "tokens") (λ h. cc) (λ h. cc),
  )

  abbrev WorksIf : Option (Value × Value) → Type 0
  WorksIf none = Unit
  WorksIf (some work) = Works work

  converted-Works : (request : Fields) (x : Option Float) → WorksIf (converted texts request x)
  converted-Works request none = tt
  converted-Works request (some x) = kind-Works request x

  parsed-Works :
      (request : Fields) (x : Option Float)
      → WorksIf (elim x [ none ↦ some (null, null) | some y ↦ some (with_kind texts request y) ])
  parsed-Works request none = inl (refl, refl)
  parsed-Works request (some x) = kind-Works request x

  declared-Works : (request : Fields) (v : Value) → WorksIf (work_from texts request v)
  unfolding work_from
  declared-Works request (int n) = converted-Works request (float_of_int n)
  declared-Works request (bool b) =
      converted-Works request (float_of_int (pos (if b then 1 else 0)))
  declared-Works request (float x) = kind-Works request x
  declared-Works request (str s) = parsed-Works request (texts.parse_float s)
  declared-Works request _ = inl (refl, refl)

  module _ (platform : Platform) where
    exited-Reports :
        (request : Fields) (code : ℤ) (stdout stderr : String)
        → Reports (command_result texts platform request (exited code stdout stderr))
    unfolding command_result declared_work
    exited-Reports request code stdout stderr =
        from_work (declared_work texts request) (declared-Works request (get "work_units" request))
      where
        from_work :
            (w : Option (Value × Value))
            → WorksIf w
            → Reports (
                (elim w [ none ↦ raised | some x ↦ done x ])
                >>= (λ work. done (exited_result texts platform code stdout stderr work)))
        from_work none h = tt
        from_work (some work) h = record {
          status = status_of (eqb_ℤ code (pos 0)) ("exit code " ++ texts.format (int code));
          work = h;
        }

    command_result-Reports :
        (request : Fields) (finish : ProcessEnd)
        → Reports (command_result texts platform request finish)
    unfolding command_result
    command_result-Reports request (not_found exc) = failure-IsReport null null _ (λ h. cc)
    command_result-Reports request expired = failure-IsReport null null _ (λ h. cc)
    command_result-Reports request (os_error exc) = failure-IsReport null null _ (λ h. cc)
    command_result-Reports request failed_otherwise = tt
    command_result-Reports request (exited code stdout stderr) =
        exited-Reports request code stdout stderr

    run_command-Reports :
        {E : Type 0} (shell : Shell E) (request : Fields) (command : Try Command) (e : E)
        → Reports (run_command texts platform shell request command e).0
    unfolding run_command
    run_command-Reports shell request (refused message) e = tt
    run_command-Reports shell request raised e = tt
    run_command-Reports shell request (done command) e =
        command_result-Reports request (shell.run command e).0

    -- Whatever an adapter returns is a success with no detail or an error with one, and it names a
    -- kind of work units exactly if it has work units.
    pub run-Reports :
        {E F : Type 0} (shell : Shell F) (http : Http E) (adapter : HttpAdapter) (api_key : String)
        (request : Fields) (e : E) (f : F)
        → Reports (command_run texts platform shell request f).0
          × Reports (ollama_run texts platform adapter http request e).0
          × Reports (openai_run texts platform adapter api_key http request e).0
    unfolding command_run ollama_run openai_run
    run-Reports shell http adapter api_key request e f = (
      run_command-Reports shell request (command_of texts platform request) f,
      post_run-Reports http (ollama_result texts platform adapter)
          (ollama_post texts platform adapter request) e (ollama_result-Reports platform adapter),
      post_run-Reports http (openai_result texts platform adapter api_key)
          (openai_post texts platform adapter api_key request) e
          (openai_result-Reports platform adapter api_key),
    )
