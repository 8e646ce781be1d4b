-- ===== src/PowerCap.antt =====
-- `hmasync_controller/powercap.py`: the cap around one job. The world behind the manager (the API
-- client, the driver and the clock) is the interface `CapWorld`. Logging has no model.
pub mod Bracket
pub mod Cache
pub mod Examples
use async_energy_controller.Base.{
  ℕ, ◌+◌, String, Bool, true, false, not, ◌||◌, Option, none, some, str_eq, leb, if◌then◌else◌,
}
use async_energy_controller.Value.{Float, finite, Value, null, bool, int, float, dict, get, PyText}
use async_energy_controller.Value.Number.{float_of_int}
use async_energy_controller.Api.Response.{ApiResult}

pub data Status : Type 0 where
  applied restored no_recommendation skipped_no_permission skipped_no_gpu skipped_error
        nothing_to_restore :
      Status

pub data Policy : Type 0 where
  preserve managed : Policy

-- A call that returns or raises.
pub data Call (A : Type 0) : Type 0 where
  returned : A → Call A
  raised : Call A

-- `set_power_limit_w`: done, refused for lack of privilege, or any other error.
pub data SetOutcome : Type 0 where
  done no_permission failed : SetOutcome

pub record CapWorld (E : Type 0) : Type 0 where
  pub now : E → ℕ × E
  pub fetch : E → Call ApiResult × E
  pub get_limit : E → Call (Option Float) × E
  pub get_default : E → Call (Option Float) × E
  pub set_limit : Float → E → SetOutcome × E

pub record Manager : Type 0 where
  pub policy : Policy
  -- Whether the profiler is an `NVMLProfiler`.
  pub nvml : Bool
  pub cache_ttl : ℕ
  pub cached_cap : Option Float
  pub cached_at : Option ℕ
  pub prior_limit : Option Float

-- An unrecognised policy falls back to `preserve`.
unfoldable pub policy_of : String → Policy
policy_of s = if str_eq s "managed" then managed else preserve

unfoldable pub new_manager : String → Bool → ℕ → Manager
unfolding policy_of
new_manager policy nvml cache_ttl = record {
  policy = policy_of policy;
  nvml = nvml;
  cache_ttl = cache_ttl;
  cached_cap = none;
  cached_at = none;
  prior_limit = none;
}

-- `float(data)` where `data` is an `int` or a `float` and no `bool`.
unfoldable pub watts_of : Value → Call (Option Float)
watts_of (int n) = elim (float_of_int n) [ none ↦ raised | some x ↦ returned (some x) ]
watts_of (float x) = returned (some x)
watts_of _ = returned none

unfoldable pub extract_cap_w : Value → Call (Option Float)
unfolding watts_of
extract_cap_w (dict fs) = watts_of (get "recommended_cap_w" fs)
extract_cap_w v = watts_of v

abbrev pub is_stale : ℕ → Manager → Bool
is_stale now m = elim m.cached_at [ none ↦ true | some at ↦ leb (at + m.cache_ttl) now ]

module _ {E : Type 0} (world : CapWorld E) where
  open world use {now, fetch, get_limit, get_default, set_limit}

  abbrev pub cap_in : Call ApiResult → Call (Option Float)
  cap_in raised = returned none
  cap_in (returned result) = if not result.ok then returned none else extract_cap_w result.content

  unfoldable pub fetch_recommended_cap_w : E → Call (Option Float) × E
  fetch_recommended_cap_w e = let (answer, e') = fetch e in (cap_in answer, e')

  abbrev pub remember : ℕ → Call (Option Float) → Manager → Manager
  remember t raised m = m
  remember t (returned cap_w) m = record m { cached_cap = cap_w; cached_at = some t }

  unfoldable pub recommended_cap_w : Manager → E → Call (Option Float) × Manager × E
  unfolding fetch_recommended_cap_w
  recommended_cap_w m e =
      let (t, e') = now e in
      let (fetched, e'') = fetch_recommended_cap_w e' in
      if is_stale t m then (fetched, remember t fetched m, e'') else (returned m.cached_cap, m, e')

  -- After the limit was set: the prior limit is kept, and the default is read for a warning.
  unfoldable pub finish_apply : Float → Manager → E → Call Status × Manager × E
  finish_apply prior m e =
      let (default_w, e') = get_default e in
      (
        elim default_w [ raised ↦ raised | returned _ ↦ returned applied ],
        record m { prior_limit = some prior },
        e',
      )

  unfoldable pub set_cap : Float → Float → Manager → E → Call Status × Manager × E
  unfolding finish_apply
  set_cap cap_w prior m e =
      let (outcome, e') = set_limit cap_w e in
      elim outcome [
        | done ↦ finish_apply prior m e'
        | no_permission ↦ (returned skipped_no_permission, m, e')
        | failed ↦ (returned skipped_error, m, e')
      ]

  -- From the prior limit, as it was read, on.
  unfoldable pub with_prior : Float → Call (Option Float) → Manager → E → Call Status × Manager × E
  unfolding set_cap
  with_prior cap_w raised m e = (raised, m, e)
  with_prior cap_w (returned none) m e = (returned skipped_error, m, e)
  with_prior cap_w (returned (some prior)) m e = set_cap cap_w prior m e

  unfoldable pub read_and_set : Float → Manager → E → Call Status × Manager × E
  unfolding with_prior
  read_and_set cap_w m e = let (prior, e') = get_limit e in with_prior cap_w prior m e'

  unfoldable pub apply_cap : Call (Option Float) → Manager → E → Call Status × Manager × E
  unfolding read_and_set
  apply_cap raised m e = (raised, m, e)
  apply_cap (returned none) m e = (returned no_recommendation, m, e)
  apply_cap (returned (some cap_w)) m e = read_and_set cap_w m e

  unfoldable pub apply : Manager → E → Call Status × Manager × E
  unfolding recommended_cap_w apply_cap
  apply m e =
      let (cap_w, m', e') = recommended_cap_w m e in
      if not m.nvml then (returned skipped_no_gpu, m, e) else apply_cap cap_w m' e'

  -- The limit to put back: `raised` where reading the default raises.
  unfoldable pub restore_target : Policy → Float → E → Call Float × E
  restore_target preserve prior e = (returned prior, e)
  restore_target managed prior e =
      let (default_w, e') = get_default e in
      (
        elim default_w [
          | raised ↦ raised
          | returned none ↦ returned prior
          | returned (some w) ↦ returned w
        ],
        e',
      )

  unfoldable pub put_back : Call Float → E → Call Status × E
  put_back raised e = (raised, e)
  put_back (returned target) e =
      let (outcome, e') = set_limit target e in
      (elim outcome [ done ↦ returned restored | _ ↦ returned skipped_error ], e')

  unfoldable pub restore_prior : Policy → Option Float → E → Call Status × E
  unfolding restore_target put_back
  restore_prior policy none e = (returned nothing_to_restore, e)
  restore_prior policy (some prior) e =
      let (target, e') = restore_target policy prior e in put_back target e'

  unfoldable pub restore : Manager → E → Call Status × Manager × E
  unfolding restore_prior
  restore m e =
      let (status, e') = restore_prior m.policy m.prior_limit e in
      (status, record m { prior_limit = none }, e')
