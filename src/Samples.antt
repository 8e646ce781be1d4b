-- ===== src/Samples.antt =====
-- Concrete parameters on which the examples run: texts, and an API that accepts every request.
use async_energy_controller.Base.{String, none, some, [], ◌∷◌}
use async_energy_controller.Value.{Value, null, str, list, dict, nil, cons, end, field, PyText}
use async_energy_controller.Api.Client.{Client, Network, response, timed_out}
use async_energy_controller.Spool.{Spool}

abbrev write : Value → String
write (str s) = s
write _ = "?"

abbrev pub texts : PyText
texts = record {
  isoformat = λ t. "2026-07-20";
  fromisoformat = λ s. none;
  format = write;
  parse_int = λ s. none;
  parse_float = λ s. none;
  lower = λ s. s;
  repr = write;
  column_text = write;
}

abbrev pub accepted : Value
accepted = dict (
    field "access_token" (str "token")
      (field "runs" (list (cons (dict (field "id" (str "run-1") end)) nil)) end))

-- Every request is answered by 200 with a token and a run id.
abbrev pub open_api : Network
open_api requests = response (record { status_code = 200; json = some accepted })

-- No request is answered.
abbrev pub no_api : Network
no_api requests = timed_out "30s"

abbrev pub client : Client
client = record {
  base_url = "https://api";
  email = "owner@example.org";
  password = "secret";
  api_key = "";
  controller_id = "box";
  access_token = null;
  refresh_token = null;
  sent = [];
}

abbrev pub keyed : Client
keyed = record client { api_key = "key" }

abbrev pub run_record : Value
run_record = dict (field "controller_id" (str "box") (field "run_id" (str "r") end))

abbrev pub spooled : Spool
spooled = record {
  rows =
      record {
        id = 1;
        created_at = "2026-07-20";
        controller_id = str "box";
        run_id = str "r";
        entry = run_record;
        samples = list nil;
      }
      ∷ [];
  sequence = 2;
}
