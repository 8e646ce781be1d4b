-- ===== src/Adapters/Command.antt =====
-- `CommandAdapter` of `hmasync_controller/adapters.py`. Subprocesses are the interface `Shell`.
use Prim.Native.String.{◌++◌}
use async_energy_controller.Base.{String, Option, none, some, List, [], ◌∷◌, map, if◌then◌else◌}
use async_energy_controller.Base.Int.{ℤ, pos, eqb_ℤ}
use async_energy_controller.Value.{
  Float, Value, null, int, str, list, tuple, dict, Fields, end, field, get, put, values_of,
  items_of, PyText,
}
use async_energy_controller.Executor.Run.{update}
use async_energy_controller.Adapters.Try.{Try, done, refused, raised, ◌>>=◌}
use async_energy_controller.Adapters.Request.{Platform, require, timeout_of, stable_hash, work_of}
use async_energy_controller.Adapters.Http.{AdapterRunResult, failure}

-- What `subprocess.run` comes to.
pub data ProcessEnd : Type 0 where
  exited : (returncode : ℤ) → (stdout stderr : String) → ProcessEnd
  not_found os_error : (exc : String) → ProcessEnd
  expired failed_otherwise : ProcessEnd

-- A command with what it is run with: `none` leaves the environment as it is.
pub record Command : Type 0 where
  pub argv : List String
  pub timeout : Option Float
  pub cwd : Value
  pub env : Option Fields

pub record Shell (E : Type 0) : Type 0 where
  pub run : Command → E → ProcessEnd × E

module _ (texts : PyText) (platform : Platform) where
  unfoldable pub normalize_command : Value → Try (List String)
  normalize_command (str s) = elim (platform.split_command s) [ none ↦ raised | some l ↦ done l ]
  normalize_command (list vs) = done (map texts.format (values_of vs))
  normalize_command (tuple vs) = done (map texts.format (values_of vs))
  normalize_command v = refused "command must be a string or a list of arguments"

  -- `{str(k): str(v) for k, v in env.items()}`.
  abbrev pub texts_of : Fields → Fields
  texts_of end = end
  texts_of (field k v fs) = field k (str (texts.format v)) (texts_of fs)

  abbrev pub environment : Value → Option Fields
  environment (dict fs) = some (update platform.environ (texts_of fs))
  environment v = none

  abbrev pub not_empty : List String → Try (List String)
  not_empty [] = refused "command resolved to an empty argument list"
  not_empty (a ∷ l) = done (a ∷ l)

  unfoldable pub command_of : Fields → Try Command
  unfolding normalize_command require update
  command_of request = do
    value ← require request "command"
    l ← normalize_command value
    argv ← not_empty l
    timeout ← timeout_of texts request
    done (record {
      argv = argv;
      timeout = timeout;
      cwd = get "cwd" request;
      env = environment (get "env" request);
    })

  abbrev pub exited_result : ℤ → String → String → Value × Value → AdapterRunResult
  exited_result code stdout stderr (units, kind) =
      let succeeded = eqb_ℤ code (pos 0) in
      record {
        exit_status = if succeeded then "success" else "error";
        work_units = units;
        work_unit_kind = kind;
        exit_code = int code;
        output = dict (field "stdout" (str stdout) (field "stderr" (str stderr) end));
        detail = if succeeded then null else str ("exit code " ++ texts.format (int code));
      }

  unfoldable pub command_result : Fields → ProcessEnd → Try AdapterRunResult
  command_result request (not_found exc) =
      done (failure null null (str ("command not found: " ++ exc)))
  command_result request expired = done (failure null null (str "command timed out"))
  command_result request (os_error exc) = done (failure null null (str ("exec error: " ++ exc)))
  command_result request failed_otherwise = raised
  command_result request (exited code stdout stderr) = do
    work ← work_of texts platform request
    done (exited_result code stdout stderr work)

  unfoldable pub run_command :
      {E : Type 0} → Shell E → Fields → Try Command → E → Try AdapterRunResult × E
  unfolding command_result
  run_command shell request (refused message) e = (refused message, e)
  run_command shell request raised e = (raised, e)
  run_command shell request (done command) e =
      let (finish, e') = shell.run command e in (command_result request finish, e')

  -- `CommandAdapter.run`.
  unfoldable pub command_run : {E : Type 0} → Shell E → Fields → E → Try AdapterRunResult × E
  unfolding run_command command_of
  command_run shell request e = run_command shell request (command_of request) e

  -- The declared cost features, where they are an object with fields.
  abbrev pub with_cost_features : Value → Fields → Fields
  with_cost_features (dict (field k v fs)) features =
      put "cost_features" (platform.reload_sorted (field k v fs)) features
  with_cost_features _ features = features

  -- `CommandAdapter.fingerprint`.
  unfoldable pub command_fingerprint : Fields → Try (String × Fields)
  unfolding normalize_command require stable_hash
  command_fingerprint request = do
    value ← require request "command"
    argv ← normalize_command value
    let features = with_cost_features (get "cost_features" request) (
        field "framework" (str "command")
          (field "command" (list (items_of (map (λ s. str s) argv))) end))
    done (stable_hash texts platform features, features)
