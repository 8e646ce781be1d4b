-- ===== src/Api/Examples.antt =====
-- The theorems about the API client, at a client and an API that answers.
use async_energy_controller.Base.{refl, none}
use async_energy_controller.Value.{null, truthy, get}
use async_energy_controller.Api.Client.{result_of, authed_request, session_of}
use async_energy_controller.Api.Response.{parse_response}
use async_energy_controller.Api.Clean.{IsClean, authed_request-IsClean}
use async_energy_controller.Api.Session.{Follows, authed_request-Follows}
use async_energy_controller.Api.Guarded.{IsSafe, Issues, issued, authed_request-IsSafe}
use async_energy_controller.Samples.{texts, open_api, no_api, client}

authed_request-IsClean_example :
    IsClean (authed_request texts no_api "GET" "/api/v1/schedule" null none client).0
authed_request-IsClean_example =
    authed_request-IsClean texts no_api "GET" "/api/v1/schedule" null none client

authed_request-Follows_example :
    Follows 5 client (authed_request texts open_api "GET" "/api/v1/schedule" null none client).1
authed_request-Follows_example =
    authed_request-Follows texts open_api "GET" "/api/v1/schedule" null none client

open_api-Issues : Issues texts open_api "https://api"
unfolding result_of parse_response issued session_of truthy get
open_api-Issues r earlier post login ok = refl

authed_request-IsSafe_example :
    IsSafe "https://api" (authed_request texts open_api "GET" "/api/v1/schedule" null none client).1
authed_request-IsSafe_example =
    authed_request-IsSafe texts open_api "https://api" "GET" "/api/v1/schedule" null none
      open_api-Issues client (record { same_base = refl; guarded = tt })
