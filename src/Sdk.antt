-- ===== src/Sdk.antt =====
-- `hmasync_controller/sdk.py`: the library for callers with a process of their own. Window has the
-- windows that the API advises, Measure the runs that report themselves. Here: the credentials.
pub mod Window
pub mod Measure
pub mod Reported
pub mod Waits
pub mod Examples
use async_energy_controller.Base.{
  String, Bool, true, false, not, ◌&&◌, Option, none, some, str_eq, if◌then◌else◌, ◌||◌,
}
use async_energy_controller.Api.Client.{Client, new_client}

abbrev pub default_api_url : String
default_api_url = "https://api.async.energy"

-- `a or b` of texts.
abbrev pub or_text : String → String → String
or_text a b = if str_eq a "" then b else a

-- `hostname` is what `socket.gethostname` returns, or `none` where it raises.
unfoldable pub default_controller_id : Option String → String
default_controller_id none = "unknown"
default_controller_id (some hostname) = or_text hostname "unknown"

-- The arguments of the constructor; an injected client is `given`.
pub record Arguments : Type 0 where
  pub api_key : String
  pub api_url : String
  pub email : String
  pub password : String
  pub controller_id : String
  pub given : Option Client

pub record AsyncEnergy : Type 0 where
  pub controller_id : String
  pub client : Client
  pub owns_client : Bool

abbrev pub is_set : String → Bool
is_set s = not (str_eq s "")

-- `environ` is `os.environ.get` with the default "". The error is that of missing credentials.
unfoldable pub new_async_energy : (String → String) → Option String → Arguments → Option AsyncEnergy
unfolding default_controller_id new_client
new_async_energy environ hostname arguments =
    let controller_id =
      or_text arguments.controller_id
        (or_text (environ "CONTROLLER_ID") (default_controller_id hostname)) in
    let api_key = or_text arguments.api_key (environ "HM_ASYNC_API_KEY") in
    let api_url =
      or_text arguments.api_url (or_text (environ "HM_ASYNC_API_URL") default_api_url) in
    let email = or_text arguments.email (environ "HM_ASYNC_EMAIL") in
    let password = or_text arguments.password (environ "HM_ASYNC_PASSWORD") in
    elim arguments.given [
      | some client ↦
          some (record { controller_id = controller_id; client = client; owns_client = false })
      | none ↦
          if is_set api_key || (is_set email && is_set password)
          then some (record {
            controller_id = controller_id;
            client = new_client (some api_url) email password controller_id api_key;
            owns_client = true;
          })
          else none
    ]
