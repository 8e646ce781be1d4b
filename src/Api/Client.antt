-- ===== src/Api/Client.antt =====
-- The session of `ApiClient` in `hmasync_controller/apiclient.py`: `_send`, `login`, `_refresh`,
-- `_store_tokens`, `_ensure_auth` and `_authed_request`. A client carries the requests that it has
-- sent, latest first, and the network answers each from that history.
use Prim.Native.Char.{code}
use Prim.Native.String.{◌++◌}
use async_energy_controller.Base.{
  String, Bool, true, false, not, ◌&&◌, ◌||◌, Option, none, some, List, [], ◌∷◌, ◌==◌, str_eq,
  if◌then◌else◌,
}
use async_energy_controller.Value.{
  Value, null, str, dict, Fields, end, field, get, truthy, is_null, PyText,
}
use async_energy_controller.Value.Encode.{jsonable}
use async_energy_controller.Api.Response.{ApiResult, Response, parse_response}

-- The headers of a request: none, `X-API-Key: key`, or `Authorization: Bearer token`.
pub data Credential : Type 0 where
  anonymous : Credential
  api_key_header : String → Credential
  bearer : Value → Credential

-- A `json` of null is a request with no body.
pub record Request : Type 0 where
  pub method : String
  pub url : String
  pub json : Value
  pub params : Option Fields
  pub credential : Credential

-- The outcome of `httpx.Client.request`: a response, or one of the three kinds of exception that
-- `_send` tells apart, with its text.
pub data Outcome : Type 0 where
  response : Response → Outcome
  timed_out : String → Outcome
  request_error : String → Outcome
  other_error : String → Outcome

abbrev pub Network : Type 0
Network = List Request → Outcome

pub record Client : Type 0 where
  pub base_url : String
  pub email : String
  pub password : String
  pub api_key : String
  pub controller_id : String
  pub access_token : Value
  pub refresh_token : Value
  pub sent : List Request

abbrev pub filled : String → Bool
filled s = not (str_eq s "")

-- `text.rstrip("/")`.
unfoldable pub rstrip_slash : String → String
rstrip_slash String.[] = ""
rstrip_slash (String.◌∷◌ c s) =
    let rest = rstrip_slash s in if str_eq rest "" && code c == b'/' then "" else String.◌∷◌ c rest

-- `ApiClient.__init__`; `none` stands for a `base_url` of `None`.
unfoldable pub new_client : Option String → String → String → String → String → Client
unfolding rstrip_slash
new_client base_url email password controller_id api_key = record {
  base_url = elim base_url [ none ↦ "" | some url ↦ rstrip_slash url ];
  email = email;
  password = password;
  api_key = api_key;
  controller_id = controller_id;
  access_token = null;
  refresh_token = null;
  sent = [];
}

abbrev pub failure : Bool → String → ApiResult
failure transport message = record {
  ok = false;
  status_code = none;
  content = null;
  error = str message;
  transport_error = transport;
}

-- The headers that `_send` builds.
unfoldable pub credential_of : Bool → Client → Credential
credential_of auth c =
    if auth && filled c.api_key
    then api_key_header c.api_key
    else if auth && truthy c.access_token
    then bearer c.access_token
    else anonymous

-- The `session` object of an auth response, or the response itself.
unfoldable pub session_of : Fields → Fields
session_of fs = elim (get "session" fs) [ dict session ↦ session | _ ↦ fs ]

unfoldable pub store_tokens : Value → Client → Client
unfolding session_of
store_tokens (dict fs) c =
    let access = get "access_token" (session_of fs) in
    let refresh = get "refresh_token" (session_of fs) in
    record c {
      access_token = if truthy access then access else c.access_token;
      refresh_token = if truthy refresh then refresh else c.refresh_token;
    }
store_tokens _ c = c

module _ (texts : PyText) (network : Network) where
  -- What `_send` makes of the outcome.
  unfoldable pub result_of : Outcome → ApiResult
  result_of (response resp) = parse_response texts resp
  result_of (timed_out exc) = failure true ("request timed out: " ++ exc)
  result_of (request_error exc) = failure true ("network error: " ++ exc)
  result_of (other_error exc) = failure false ("unexpected error: " ++ exc)

  abbrev pub request_of : String → String → Value → Option Fields → Bool → Client → Request
  request_of method path json params auth c = record {
    method = method;
    url = c.base_url ++ path;
    json = jsonable texts.isoformat json;
    params = params;
    credential = credential_of auth c;
  }

  unfoldable pub send : String → String → Value → Option Fields → Bool → Client → ApiResult × Client
  unfolding result_of
  send method path json params auth c =
      let history = request_of method path json params auth c ∷ c.sent in
      (result_of (network history), record c { sent = history })

  unfoldable pub login : Client → ApiResult × Client
  login c =
      if not (filled c.email) || not (filled c.password)
      then (failure false "No credentials configured", c)
      else let body = field "email" (str c.email) (field "password" (str c.password) end) in
        let (result, c') = send "POST" "/auth/login" (dict body) none false c in
        (result, if result.ok then store_tokens result.content c' else c')

  unfoldable pub refresh : Client → Bool × Client
  refresh c =
      if not (truthy c.refresh_token)
      then (false, c)
      else let body = field "refresh_token" c.refresh_token end in
        let (result, c') = send "POST" "/auth/refresh" (dict body) none false c in
        let stored = store_tokens result.content c' in
        if result.ok then (not (is_null stored.access_token), stored) else (false, c')

  -- `none` where the request may go out, else the failed login.
  unfoldable pub ensure_auth : Client → Option ApiResult × Client
  ensure_auth c =
      let (result, c') = login c in
      if truthy c.access_token then (none, c) else (if result.ok then none else some result, c')

  -- `self._refresh() or self.login().ok`.
  unfoldable pub renew : Client → Bool × Client
  renew c =
      let (refreshed, c') = refresh c in
      let (result, c'') = login c' in if refreshed then (true, c') else (result.ok, c'')

  abbrev pub is_401 : ApiResult → Bool
  is_401 r = elim r.status_code [ none ↦ false | some n ↦ n == 401 ]

  -- The call once a session is there: one more try after a renewed 401.
  unfoldable pub send_renewing :
      String → String → Value → Option Fields → Client → ApiResult × Client
  send_renewing method path json params c =
      let (result, c') = send method path json params true c in
      let (renewed, c'') = renew c' in
      if not (is_401 result)
      then (result, c')
      else if renewed
      then send method path json params true c''
      else (result, c'')

  -- What follows `pre = self._ensure_auth()`.
  unfoldable pub resume :
      String → String → Value → Option Fields → Client → Option ApiResult → ApiResult × Client
  resume method path json params c none = send_renewing method path json params c
  resume method path json params c (some failed) = (failed, c)

  unfoldable pub authed_request :
      String → String → Value → Option Fields → Client → ApiResult × Client
  authed_request method path json params c =
      let (pre, c') = ensure_auth c in
      if filled c.api_key
      then send method path json params true c
      else resume method path json params c' pre
