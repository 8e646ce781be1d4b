-- ===== src/Api/Response.antt =====
-- `ApiResult`, `_parse_response` and `server_run_id` of `hmasync_controller/apiclient.py`.
use Prim.Native.String.{◌++◌}
use async_energy_controller.Base.{
  ℕ, Bool, true, false, Option, none, some, ◌==◌, leb, if◌then◌else◌,
}
use async_energy_controller.Base.Int.{pos}
use async_energy_controller.Value.{Value, null, int, str, list, dict, cons, get, truthy, PyText}

pub record ApiResult : Type 0 where
  pub ok : Bool
  pub status_code : Option ℕ
  pub content : Value
  pub error : Value
  pub transport_error : Bool

-- What httpx hands over: the status, and the body, or `none` where `resp.json()` raises.
pub record Response : Type 0 where
  pub status_code : ℕ
  pub json : Option Value

-- `data.get("detail") or data.get("error") or data.get("message")` of a JSON object.
unfoldable pub error_detail : Value → Value
error_detail (dict fs) =
    if truthy (get "detail" fs)
    then get "detail" fs
    else if truthy (get "error" fs)
    then get "error" fs
    else get "message" fs
error_detail _ = null

abbrev pub body_of : Option Value → Value
body_of none = null
body_of (some v) = v

module _ (texts : PyText) where
  unfoldable pub parse_response : Response → ApiResult
  unfolding error_detail
  parse_response resp =
      let parsed = body_of resp.json in
      let detail = error_detail parsed in
      if resp.status_code == 204
      then record {
        ok = true;
        status_code = some 204;
        content = null;
        error = null;
        transport_error = false;
      }
      else if leb 400 resp.status_code
      then record {
        ok = false;
        status_code = some resp.status_code;
        content = parsed;
        error =
            if truthy detail
            then detail
            else str ("HTTP " ++ texts.format (int (pos resp.status_code)));
        transport_error = false;
      }
      else record {
        ok = true;
        status_code = some resp.status_code;
        content = parsed;
        error = null;
        transport_error = false;
      }

-- `runs[0].get("id")` where `runs` is a list that starts with an object; null otherwise.
unfoldable pub first_run_id : Value → Value
first_run_id (list (cons (dict fs) _)) = get "id" fs
first_run_id _ = null

unfoldable pub runs_of : Value → Value
runs_of (dict fs) = get "runs" fs
runs_of _ = null

unfoldable pub server_run_id : ApiResult → Value
unfolding first_run_id runs_of
server_run_id result = if result.ok then first_run_id (runs_of result.content) else null
