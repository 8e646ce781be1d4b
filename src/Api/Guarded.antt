-- ===== src/Api/Guarded.antt =====
-- No request of `ApiClient` other than a login or a refresh goes out without credentials.
use Prim.Native.String.{◌++◌}
use async_energy_controller.Base.{
  String, ◌≡◌, ◌≢◌, ◌⊎◌, inl, inr, refl, true, false, not, ◌||◌, Option, none, some, List, ◌∷◌,
  arith, All, if_ind, if_elim, if◌then◌else◌, ap,
}
use async_energy_controller.Value.{
  Value, null, str, dict, Fields, end, field, get, truthy, is_null, PyText,
}
use async_energy_controller.Api.Response.{ApiResult}
use async_energy_controller.Api.Client.{
  Client, Request, Network, anonymous, session_of, store_tokens, result_of, send, login, refresh,
  ensure_auth, renew, is_401, send_renewing, resume, authed_request, filled, credential_of,
}
use async_energy_controller.Api.Session.{renew-Follows, send-Follows}

truthy-null : truthy null ≡ false
unfolding truthy
truthy-null = refl

-- Credentials, or one of the two calls that fetch them.
abbrev pub IsGuarded : String → Request → Type 0
IsGuarded base r =
    (r.credential ≢ anonymous)
    ⊎ ((r.url ≡ base ++ "/auth/login") ⊎ (r.url ≡ base ++ "/auth/refresh"))

pub record IsSafe (base : String) (c : Client) : Type 0 where
  pub same_base : c.base_url ≡ base
  pub guarded : All (IsGuarded base) c.sent

-- The access token in the body of an auth response.
unfoldable pub issued : Value → Value
issued (dict fs) = get "access_token" (session_of fs)
issued _ = null

module _ (texts : PyText) (network : Network) where
  -- The API answers an accepted login with an access token.
  abbrev pub Issues : String → Type 0
  Issues base =
      (r : Request) (earlier : List Request)
      → r.method ≡ "POST"
      → r.url ≡ base ++ "/auth/login"
      → (result_of texts network (network (r ∷ earlier))).ok ≡ true
      → truthy (issued (result_of texts network (network (r ∷ earlier))).content) ≡ true

  abbrev Safe : {A : Type 0} → String → A × Client → Type 0
  Safe base p = IsSafe base p.1

  store_tokens-IsSafe :
      (base : String) (v : Value) (c : Client) → IsSafe base c → IsSafe base (store_tokens v c)
  unfolding store_tokens
  store_tokens-IsSafe base (dict fs) c s = record { same_base = s.same_base; guarded = s.guarded }
  store_tokens-IsSafe base _ c s = s

  store_tokens-access :
      (v : Value) (c : Client)
      → truthy (issued v) ≡ true
      → truthy (store_tokens v c).access_token ≡ true
  unfolding store_tokens issued
  store_tokens-access (dict fs) c h = rw h h
  store_tokens-access _ c h = cc (truthy-null)

  module _ (base : String) where
    login-IsSafe : (c : Client) → IsSafe base c → Safe base (login texts network c)
    unfolding login send
    login-IsSafe c s =
        let body : Value =
          dict (field "email" (str c.email) (field "password" (str c.password) end)) in
        let p = send texts network "POST" "/auth/login" body none false c in
        let sent : IsSafe base p.1 = record {
          same_base = s.same_base;
          guarded = (inr (inl (ap (λ (u : String). u ++ "/auth/login") s.same_base)), s.guarded);
        } in
        if_ind (Safe base) (not (filled c.email) || not (filled c.password)) (_, c) (p.0, _) s
          (if_ind (IsSafe base) p.0.ok (store_tokens p.0.content p.1) p.1
            (store_tokens-IsSafe base p.0.content p.1 sent) sent)

    refresh-IsSafe : (c : Client) → IsSafe base c → Safe base (refresh texts network c)
    unfolding refresh send
    refresh-IsSafe c s =
        let body : Value = dict (field "refresh_token" c.refresh_token end) in
        let p = send texts network "POST" "/auth/refresh" body none false c in
        let q = store_tokens p.0.content p.1 in
        let sent : IsSafe base p.1 = record {
          same_base = s.same_base;
          guarded = (inr (inr (ap (λ (u : String). u ++ "/auth/refresh") s.same_base)), s.guarded);
        } in
        if_ind (Safe base) (not (truthy c.refresh_token)) (false, c) (_, _) s
          (if_ind (Safe base) p.0.ok (not (is_null q.access_token), q) (false, p.1)
            (store_tokens-IsSafe base p.0.content p.1 sent) sent)

    renew-IsSafe : (c : Client) → IsSafe base c → Safe base (renew texts network c)
    unfolding renew
    renew-IsSafe c s =
        let p = refresh texts network c in
        let q = login texts network p.1 in
        if_ind (Safe base) p.0 (true, p.1) (q.0.ok, q.1) (refresh-IsSafe c s)
          (login-IsSafe p.1 (refresh-IsSafe c s))

    -- After a login that succeeded there is a token.
    login-access :
        Issues base
        → (c : Client) → c.base_url ≡ base
        → (login texts network c).0.ok ≡ true
        → truthy (login texts network c).1.access_token ≡ true
    unfolding login send credential_of
    login-access issues c same =
        let body : Value =
          dict (field "email" (str c.email) (field "password" (str c.password) end)) in
        let p = send texts network "POST" "/auth/login" body none false c in
        let Goal = λ (r : ApiResult × Client). r.0.ok ≡ true → truthy r.1.access_token ≡ true in
        if_ind Goal (not (filled c.email) || not (filled c.password)) (_, c) (p.0, _) (λ h. cc)
          (λ h. rw h (
            store_tokens-access p.0.content p.1
              (issues _ c.sent refl (ap (λ (u : String). u ++ "/auth/login") same) h)))

    ensure_auth-access :
        Issues base
        → (c : Client) → c.base_url ≡ base
        → (ensure_auth texts network c).0 ≡ none
        → truthy (ensure_auth texts network c).1.access_token ≡ true
    unfolding ensure_auth
    ensure_auth-access issues c same =
        let q = login texts network c in
        let Goal = λ (r : Option ApiResult × Client). r.0 ≡ none → truthy r.1.access_token ≡ true in
        if_elim Goal (truthy c.access_token) (none, c) (if q.0.ok then none else some q.0, q.1)
          (λ t _. t) (λ _. ground (arith, login-access issues c same))

    ensure_auth-IsSafe : (c : Client) → IsSafe base c → Safe base (ensure_auth texts network c)
    unfolding ensure_auth
    ensure_auth-IsSafe c s =
        if_ind (Safe base) (truthy c.access_token) (none, c) (_, (login texts network c).1) s
          (login-IsSafe c s)

    credential_of-ne-anonymous :
        (c : Client)
        → (filled c.api_key ≡ true) ⊎ (truthy c.access_token ≡ true)
        → credential_of true c ≢ anonymous
    unfolding credential_of
    credential_of-ne-anonymous c h = λ e. ground arith

    module _ (method path : String) (json : Value) (params : Option Fields) where
      send-IsSafe :
          (c : Client)
          → (filled c.api_key ≡ true) ⊎ (truthy c.access_token ≡ true)
          → IsSafe base c
          → Safe base (send texts network method path json params true c)
      unfolding send
      send-IsSafe c held s = record {
        same_base = s.same_base;
        guarded = (inl (credential_of-ne-anonymous c held), s.guarded);
      }

      send_renewing-IsSafe :
          (c : Client)
          → truthy c.access_token ≡ true
          → IsSafe base c
          → Safe base (send_renewing texts network method path json params c)
      unfolding send_renewing
      send_renewing-IsSafe c t s =
          let p = send texts network method path json params true c in
          let q = renew texts network p.1 in
          let r = send texts network method path json params true q.1 in
          let first = send-IsSafe c (inr t) s in
          let held = (send-Follows texts network method path json params true c).access_kept t in
          let still = (renew-Follows texts network p.1).access_kept held in
          let second = renew-IsSafe p.1 first in
          if_ind (Safe base) (not (is_401 texts network p.0)) p (if q.0 then r else (p.0, q.1))
            first (if_ind (Safe base) q.0 r (p.0, q.1) (send-IsSafe q.1 (inr still) second) second)

      resume-IsSafe :
          (pre : Option ApiResult) (c : Client)
          → (pre ≡ none → truthy c.access_token ≡ true)
          → IsSafe base c
          → Safe base (resume texts network method path json params c pre)
      unfolding resume
      resume-IsSafe none c t s = send_renewing-IsSafe c (t refl) s
      resume-IsSafe (some failed) c t s = s

      -- Where the API answers an accepted login with an access token, every request that an
      -- authenticated call adds to those of a client carries credentials, or is a login or a
      -- refresh.
      pub authed_request-IsSafe :
          Issues base
          → (c : Client) → IsSafe base c
          → IsSafe base (authed_request texts network method path json params c).1
      unfolding authed_request
      authed_request-IsSafe issues c s =
          let (pre, c') = ensure_auth texts network c in
          let p = send texts network method path json params true c in
          if_elim (Safe base) (filled c.api_key) p
            (resume texts network method path json params c' pre) (λ key. send-IsSafe c (inl key) s)
            (λ _.
              resume-IsSafe pre c' (ensure_auth-access issues c s.same_base)
                (ensure_auth-IsSafe c s))
