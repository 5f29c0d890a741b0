-- ===== src/Api/Tests.antt =====
-- Some requests and keys, and what a toggled list item, a completed chore
-- and a new event refresh.
use tidyboard.Prelude.{◌≡◌, ◌↔◌, ◌⊎◌, ◌≤◌, ℕ, refl, true, false, [], none, some, String}
use tidyboard.Api.Request.{api_get, obj}
use tidyboard.Api.Client.{Response, ErrorBody, Outcome, sent, settle}
use tidyboard.Api.Sample.{client, platform}
use tidyboard.Api.Query.{is_uuid, utf16_length}
use tidyboard.Api.Registry.Reads.{query, list, live_members}
use tidyboard.Api.Registry.Writes.{mutation, create_event, toggle_list_item, mark_chore_complete}
use tidyboard.Api.Matching.{refreshes}
use tidyboard.Api.Hooks.Kitchen.{running, succeeded, failed, import_interval}
use tidyboard.Api.Polling.{import_interval-polls}
use tidyboard.Api.Refresh.{live_only-stale}

key_tests :
    (refreshes client
        (mutation platform (toggle_list_item "l1" "i1" true)).invalidates
        (query platform (list "l2")).key
      ≡ true)
    × (refreshes client
          (mutation platform (mark_chore_complete "c" none)).invalidates
          (query platform (list "l2")).key
        ≡ false)
    × (is_uuid (some "0a1B2c3d-0000-1111-2222-abcdefABCDEF") ≡ true)
    × (is_uuid (some "0a1b2c3d-0000-1111-2222-abcdefabcdeg") ≡ false)
    × (utf16_length "ABCD1234" ≡ 8)
key_tests = (refl, refl, refl, refl, refl)

live_only-stale_example :
    refreshes client
      (mutation platform (create_event (obj []))).invalidates
      (query platform live_members).key
    ≡ false
live_only-stale_example =
    live_only-stale client platform (create_event (obj [])) live_members (refl, tt)

import_interval-polls_example :
    ((import_interval (some running) 3 ≡ none)
      ↔ ((some running ≡ some succeeded) ⊎ (some running ≡ some failed)))
    × ((import_interval (some running) 3 ≡ none)
        ⊎ ((ms : ℕ) × (import_interval (some running) 3 ≡ some ms) × (2000 ≤ ms) × (ms ≤ 30000)))
import_interval-polls_example = import_interval-polls (some running) 3

abbrev bad_gateway : Response String
bad_gateway = record {
  ok = false;
  status = 502;
  status_text = "";
  request_id = some "r1";
  error_body = ErrorBody.not_json;
  json = none;
}

client_tests :
    (settle "/v1/lists" "GET" bad_gateway
      ≡ Outcome.api_error (record {
        code = some "non_json_response";
        message = some "Server error";
        status = 502;
        request_id = some "r1";
        url = "/v1/lists";
        method = "GET";
      }))
    × ((sent "http://h" (some "t") (api_get "/v1/lists")).url ≡ "http://h/v1/lists")
client_tests = (refl, refl)
