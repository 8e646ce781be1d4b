-- ===== src/Api/Clean.antt =====
-- The clean-error contract of `ApiClient`: what every result of a call tells.
use async_energy_controller.Base.{
  ℕ, ◌<◌, String, ◌≡◌, ◌≢◌, true, false, not, ◌||◌, Option, none, some, arith, if_ind, Bool,
  if◌then◌else◌,
}
use async_energy_controller.Value.{Value, null, Fields, truthy, PyText}
use async_energy_controller.Api.Response.{
  ApiResult, Response, parse_response, error_detail, body_of,
}
use async_energy_controller.Api.Client.{
  Outcome, response, Network, Client, result_of, send, login, ensure_auth, send_renewing, resume,
  authed_request, filled, renew, is_401,
}

pub truthy-ne-null : (v : Value) → truthy v ≡ true → v ≢ null
unfolding truthy
truthy-ne-null v h = λ e. ground arith

abbrev pub IsBelow : ℕ → Option ℕ → Type 0
IsBelow bound none = ⊥
IsBelow bound (some n) = n < bound

-- A success has a status below 400 and no error; a failure has an error; a transport failure is a
-- failure with no status.
pub record IsClean (r : ApiResult) : Type 0 where
  pub success : r.ok ≡ true → IsBelow 400 r.status_code × (r.error ≡ null)
  pub refusal : r.ok ≡ false → r.error ≢ null
  pub outage : r.transport_error ≡ true → (r.ok ≡ false) × (r.status_code ≡ none)

module _ (texts : PyText) where
  parse_response-IsClean : (resp : Response) → IsClean (parse_response texts resp)
  unfolding parse_response
  parse_response-IsClean resp = record {
    success = λ h. ground arith;
    refusal = λ h. ground (arith, truthy-ne-null (error_detail (body_of resp.json)));
    outage = λ h. ground arith;
  }

  module _ (network : Network) where
    result_of-IsClean : (o : Outcome) → IsClean (result_of texts network o)
    unfolding result_of
    result_of-IsClean (response resp) = parse_response-IsClean resp
    result_of-IsClean _ = record {
      success = λ h. ground arith;
      refusal = λ h. ground arith;
      outage = λ h. ground arith;
    }

    send-IsClean :
        (method path : String) (json : Value) (params : Option Fields) (auth : Bool) (c : Client)
        → IsClean (send texts network method path json params auth c).0
    unfolding send
    send-IsClean method path json params auth c = result_of-IsClean _

    abbrev Clean : ApiResult × Client → Type 0
    Clean p = IsClean p.0

    login-IsClean : (c : Client) → Clean (login texts network c)
    unfolding login
    login-IsClean c =
        if_ind Clean (not (filled c.email) || not (filled c.password)) (_, c) (_, _)
          (record {
            success = λ h. ground arith;
            refusal = λ h. ground arith;
            outage = λ h. ground arith;
          })
          (send-IsClean "POST" "/auth/login" _ none false c)

    abbrev OrClean : Option ApiResult → Type 0
    OrClean none = Unit
    OrClean (some r) = IsClean r

    ensure_auth-OrClean : (c : Client) → OrClean (ensure_auth texts network c).0
    unfolding ensure_auth
    ensure_auth-OrClean c =
        if_ind (λ (p : Option ApiResult × Client). OrClean p.0) (truthy c.access_token) (none, c)
          (_, _) tt
          (if_ind OrClean (login texts network c).0.ok none (some (login texts network c).0) tt
            (login-IsClean c))

    send_renewing-IsClean :
        (method path : String) (json : Value) (params : Option Fields) (c : Client)
        → Clean (send_renewing texts network method path json params c)
    unfolding send_renewing
    send_renewing-IsClean method path json params c =
        let first = send texts network method path json params true c in
        let second = renew texts network first.1 in
        let again = send texts network method path json params true second.1 in
        let clean = send-IsClean method path json params true c in
        if_ind Clean (not (is_401 texts network first.0)) first
          (if second.0 then again else (first.0, second.1)) clean
          (if_ind Clean second.0 again (first.0, second.1)
            (send-IsClean method path json params true second.1) clean)

    resume-IsClean :
        (method path : String) (json : Value) (params : Option Fields) (c : Client)
        (pre : Option ApiResult)
        → OrClean pre
        → Clean (resume texts network method path json params c pre)
    unfolding resume
    resume-IsClean method path json params c none h =
        send_renewing-IsClean method path json params c
    resume-IsClean method path json params c (some r) h = h

    -- Whatever the network answers or raises, an authenticated call returns a clean result: a
    -- success has a status below 400 and no error, a failure has an error that is not null, and
    -- a transport failure is a failure without a status.
    pub authed_request-IsClean :
        (method path : String) (json : Value) (params : Option Fields) (c : Client)
        → IsClean (authed_request texts network method path json params c).0
    unfolding authed_request
    authed_request-IsClean method path json params c =
        let (pre, c') = ensure_auth texts network c in
        if_ind Clean (filled c.api_key) (send texts network method path json params true c)
          (resume texts network method path json params c' pre)
          (send-IsClean method path json params true c)
          (resume-IsClean method path json params c' pre (ensure_auth-OrClean c))
