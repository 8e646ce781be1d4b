-- ===== src/Api/Session.antt =====
-- What a call does to the session of `ApiClient`: the requests that go out, and the tokens.
use async_energy_controller.Base.{
  ℕ, ◌+◌, ◌≤◌, String, ◌≡◌, Bool, true, false, not, ◌||◌, Option, none, some, ◌∷◌, arith, if_ind,
  length, if◌then◌else◌,
}
use async_energy_controller.Value.{Value, dict, Fields, truthy, PyText, field, str, end, is_null}
use async_energy_controller.Api.Response.{ApiResult}
use async_energy_controller.Api.Client.{
  Client, Network, store_tokens, send, login, refresh, ensure_auth, renew, is_401, send_renewing,
  resume, authed_request, filled, request_of, api_key_header, credential_of,
}

-- From `c` to `c'` at most `k` requests went out; the configuration is the same, and a token that
-- was there is not lost.
pub record Follows (k : ℕ) (c c' : Client) : Type 0 where
  pub base_url : c'.base_url ≡ c.base_url
  pub api_key : c'.api_key ≡ c.api_key
  pub email : c'.email ≡ c.email
  pub password : c'.password ≡ c.password
  pub requests : length c'.sent ≤ length c.sent + k
  pub access_kept : truthy c.access_token ≡ true → truthy c'.access_token ≡ true
  pub refresh_kept : truthy c.refresh_token ≡ true → truthy c'.refresh_token ≡ true

Follows-refl : (k : ℕ) (c : Client) → Follows k c c
Follows-refl k c = ground arith

Follows-trans :
    (j k l : ℕ) {a b c : Client} → Follows j a b → Follows k b c → j + k ≤ l → Follows l a c
Follows-trans j k l f g h = record {
  base_url = cc (f.base_url, g.base_url);
  api_key = cc (f.api_key, g.api_key);
  email = cc (f.email, g.email);
  password = cc (f.password, g.password);
  requests = omega arith;
  access_kept = λ t. g.access_kept (f.access_kept t);
  refresh_kept = λ t. g.refresh_kept (f.refresh_kept t);
}

store_tokens-Follows : (v : Value) (c : Client) → Follows 0 c (store_tokens v c)
unfolding store_tokens
store_tokens-Follows (dict fs) c = ground arith
store_tokens-Follows _ c = Follows-refl 0 c

module _ (texts : PyText) (network : Network) where
  pub send-Follows :
      (method path : String) (json : Value) (params : Option Fields) (auth : Bool) (c : Client)
      → Follows 1 c (send texts network method path json params auth c).1
  unfolding send
  send-Follows method path json params auth c = ground arith

  abbrev pub After : {A : Type 0} → ℕ → Client → A × Client → Type 0
  After k c p = Follows k c p.1

  login-Follows : (c : Client) → After 1 c (login texts network c)
  unfolding login
  login-Follows c =
      let body : Value =
        dict (field "email" (str c.email) (field "password" (str c.password) end)) in
      let p = send texts network "POST" "/auth/login" body none false c in
      let q = store_tokens p.0.content p.1 in
      let sent = send-Follows "POST" "/auth/login" body none false c in
      if_ind (After 1 c) (not (filled c.email) || not (filled c.password)) (_, c) (p.0, _)
        (Follows-refl 1 c)
        (if_ind (Follows 1 c) p.0.ok q p.1
          (Follows-trans 1 0 1 sent (store_tokens-Follows p.0.content p.1) (omega arith)) sent)

  refresh-Follows : (c : Client) → After 1 c (refresh texts network c)
  unfolding refresh
  refresh-Follows c =
      let body : Value = dict (field "refresh_token" c.refresh_token end) in
      let p = send texts network "POST" "/auth/refresh" body none false c in
      let q = store_tokens p.0.content p.1 in
      let sent = send-Follows "POST" "/auth/refresh" body none false c in
      if_ind (After 1 c) (not (truthy c.refresh_token)) (false, c) (_, _) (Follows-refl 1 c)
        (if_ind (After 1 c) p.0.ok (not (is_null q.access_token), q) (false, p.1)
          (Follows-trans 1 0 1 sent (store_tokens-Follows p.0.content p.1) (omega arith)) sent)

  pub renew-Follows : (c : Client) → After 2 c (renew texts network c)
  unfolding renew
  renew-Follows c =
      let p = refresh texts network c in
      let q = login texts network p.1 in
      if_ind (After 2 c) p.0 (true, p.1) (q.0.ok, q.1)
        (Follows-trans 1 0 2 (refresh-Follows c) (Follows-refl 0 p.1) (omega arith))
        (Follows-trans 1 1 2 (refresh-Follows c) (login-Follows p.1) (omega arith))

  pub ensure_auth-Follows : (c : Client) → After 1 c (ensure_auth texts network c)
  unfolding ensure_auth
  ensure_auth-Follows c =
      if_ind (After 1 c) (truthy c.access_token) (none, c) (_, (login texts network c).1)
        (Follows-refl 1 c) (login-Follows c)

  module _ (method path : String) (json : Value) (params : Option Fields) where
    send_renewing-Follows :
        (c : Client) → After 4 c (send_renewing texts network method path json params c)
    unfolding send_renewing
    send_renewing-Follows c =
        let p = send texts network method path json params true c in
        let q = renew texts network p.1 in
        let r = send texts network method path json params true q.1 in
        let sent = send-Follows method path json params true c in
        let renewed = Follows-trans 1 2 3 sent (renew-Follows p.1) (omega arith) in
        if_ind (After 4 c) (not (is_401 texts network p.0)) p (if q.0 then r else (p.0, q.1))
          (Follows-trans 1 0 4 sent (Follows-refl 0 p.1) (omega arith))
          (if_ind (After 4 c) q.0 r (p.0, q.1)
            (Follows-trans 3 1 4 renewed (send-Follows method path json params true q.1)
              (omega arith))
            (Follows-trans 3 0 4 renewed (Follows-refl 0 q.1) (omega arith)))

    resume-Follows :
        (pre : Option ApiResult) (c : Client)
        → After 4 c (resume texts network method path json params c pre)
    unfolding resume
    resume-Follows none c = send_renewing-Follows c
    resume-Follows (some failed) c = Follows-refl 4 c

    -- An authenticated call sends at most five requests, leaves the configuration alone, and
    -- never drops an access or refresh token that the client holds.
    pub authed_request-Follows :
        (c : Client) → Follows 5 c (authed_request texts network method path json params c).1
    unfolding authed_request
    authed_request-Follows c =
        let (pre, c') = ensure_auth texts network c in
        let p = send texts network method path json params true c in
        if_ind (After 5 c) (filled c.api_key) p
          (resume texts network method path json params c' pre)
          (Follows-trans 1 0 5 (send-Follows method path json params true c) (Follows-refl 0 p.1)
            (omega arith))
          (Follows-trans 1 4 5 (ensure_auth-Follows c) (resume-Follows pre c') (omega arith))

    -- With an API key the call is one request that carries the key, whatever comes back: no
    -- login, no refresh, no retry, and no change of the tokens.
    authed_request-api_key :
        (c : Client)
        → filled c.api_key ≡ true
        → ((authed_request texts network method path json params c).1
            ≡ record c { sent = request_of texts network method path json params true c ∷ c.sent })
          × (credential_of true c ≡ api_key_header c.api_key)
    unfolding authed_request send credential_of
    authed_request-api_key c h = ground arith
