-- ===== src/PowerCap/Examples.antt =====
-- The theorems about the power cap, on a driver that holds its limit in the environment.
use async_energy_controller.Base.{refl, Bool, if◌then◌else◌}
use async_energy_controller.Value.Double.{is_less}
use async_energy_controller.PowerCap.{watts_of}
use async_energy_controller.PowerCap.{
  CapWorld, Manager, returned, done, preserve, apply, recommended_cap_w, extract_cap_w, restore,
  int, skipped_error, raised,
}
use async_energy_controller.Base.{true, none, some, false, ◌≡◌, ◌≢◌, ◌^◌}
use async_energy_controller.Base.Int.{pos}
use async_energy_controller.Value.{Float, finite, Value, float, dict, field, end, null, get}
use async_energy_controller.Api.Response.{ApiResult}
use async_energy_controller.PowerCap.Bracket.{IsDriver, apply-restore}
use async_energy_controller.PowerCap.Cache.{IsTame, apply-ne-raised, apply_raises}

abbrev answer : Value → ApiResult
answer cap_w = record {
  ok = true;
  status_code = some 200;
  content = dict (field "recommended_cap_w" cap_w end);
  error = null;
  transport_error = false;
}

-- The clock stands still; the environment is the limit of the GPU.
abbrev gpu : Value → CapWorld Float
gpu cap_w = record {
  now = λ w. (0, w);
  fetch = λ w. (returned (answer cap_w), w);
  get_limit = λ w. (returned (some w), w);
  get_default = λ w. (returned (some (finite (pos 900))), w);
  set_limit = λ target w. (done, target);
}

abbrev fresh_manager : Manager
fresh_manager = record {
  policy = preserve;
  nvml = true;
  cache_ttl = 60;
  cached_cap = none;
  cached_at = none;
  prior_limit = none;
}

abbrev cap_value : Value
cap_value = float (finite (pos 250))

abbrev full : Float
full = finite (pos 300)

-- A card that holds one of two limits, and rounds to them.
abbrev snapped : Float → Float
snapped w = if is_less w (finite (pos 275)) then finite (pos 250) else full

abbrev limit_of : Bool → Float
limit_of low = if low then finite (pos 250) else full

abbrev card : CapWorld Bool
card = record {
  now = λ e. (0, e);
  fetch = λ e. (returned (answer cap_value), e);
  get_limit = λ e. (returned (some (limit_of e)), e);
  get_default = λ e. (returned (some (finite (pos 900))), e);
  set_limit = λ target e. (done, is_less target (finite (pos 275)));
}

snapped-limit_of : (e : Bool) → snapped (limit_of e) ≡ limit_of e
unfolding is_less
snapped-limit_of true = refl
snapped-limit_of false = refl

card-IsDriver : IsDriver card snapped limit_of
card-IsDriver = record {
  settled = snapped-limit_of;
  now_keeps = λ e. refl;
  fetch_keeps = λ e. refl;
  default_keeps = λ e. refl;
  limit_keeps = λ e. refl;
  limit_reads = λ e w h. cc;
  set_done = λ w e h. refl;
  set_refused = λ w e h. absurd (h refl);
}

apply-restore_example :
    let a = apply card fresh_manager false in
    let r = restore card a.1 a.2 in
    (r.0 ≢ returned skipped_error → limit_of r.2 ≡ full) × (r.1.prior_limit ≡ none)
apply-restore_example =
    apply-restore card snapped limit_of card-IsDriver fresh_manager false refl refl

fetched-cap :
    (recommended_cap_w (gpu cap_value) fresh_manager full).0 ≡ returned (some (finite (pos 250)))
unfolding recommended_cap_w extract_cap_w watts_of get
fetched-cap = refl

gpu-IsTame : IsTame (gpu cap_value)
unfolding get
gpu-IsTame = record {
  limit_reads = λ e. cc;
  default_reads = λ e. cc;
  answer_fits = λ e r h n at. cc;
  cap_fits = λ e r fs h k n at. cc;
}

apply-ne-raised_example : (apply (gpu cap_value) fresh_manager full).0 ≢ raised
apply-ne-raised_example = apply-ne-raised (gpu cap_value) fresh_manager full gpu-IsTame

apply_raises_example : (apply (gpu (int (pos (2 ^ 1024)))) fresh_manager full).0 ≡ raised
unfolding get
apply_raises_example =
    apply_raises (gpu (int (pos (2 ^ 1024)))) fresh_manager full (2 ^ 1024)
      (answer (int (pos (2 ^ 1024)))) (field "recommended_cap_w" (int (pos (2 ^ 1024))) end) refl
      refl refl refl refl refl refl
