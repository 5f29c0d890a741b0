-- ===== src/Auth/Tests.antt =====
-- Runs of the session, and its theorems at a signed-in parent and a child who enters a PIN.
use tidyboard.Prelude.{◌≡◌, ◌↔◌, ◌⊎◌, refl, true, false, List, [], ◌∷◌, none, some, String}
use tidyboard.Api.Sample.{platform}
use tidyboard.Auth.Session.{
  AuthHousehold, AuthStatus, Reply, answer, failure, MeResponse, PinResponse, Storage, Session,
}
use tidyboard.Auth.Provider.{Event, initial, run, mount, logout, me_answered, refresh}
use tidyboard.Auth.Invariant.{WellFormed, run-WellFormed}
use tidyboard.Auth.Gates.{children, nothing, kiosk_gate}
use tidyboard.Auth.Routes.{
  segments, is_public_or_preview_path, app_route_gate, Public, Onboarded,
  app_route_gate-children_iff,
}
use tidyboard.Auth.Orders.{idle, after_pin, pin_login-kept_out}

abbrev house_id : String
house_id = "0a1b2c3d-0000-1111-2222-abcdefabcdef"

abbrev parent : MeResponse
parent = record {
  account_id = "a1";
  household_id = some house_id;
  member_id = some "m1";
  role = "adult";
}

abbrev kid : MeResponse
kid = record {
  account_id = "a1";
  household_id = some house_id;
  member_id = some "m2";
  role = "child";
}

abbrev home : Reply (List AuthHousehold)
home = answer (record { id = house_id; name = "Home" } ∷ record { id = "x"; name = "Demo" } ∷ [])

abbrev with_token : Storage
with_token = record { works = true; token = some "t" }

abbrev opening : List Event
opening = mount ∷ me_answered 0 (answer parent) home ∷ []

abbrev signed_in : Session
signed_in = (run (initial with_token) opening).session

abbrev pin : PinResponse
pin = record { token = "pin-token"; member_id = some "m2" }

session_tests :
    (signed_in.status ≡ AuthStatus.authenticated)
    × (signed_in.household ≡ some (record { id = house_id; name = "Home" }))
    × ((run (initial with_token) (mount ∷ me_answered 0 failure failure ∷ [])).session.storage.token
        ≡ none)
    × ((run (idle signed_in) (refresh ∷ me_answered 0 failure failure ∷ [])).session.token
        ≡ some "t")
session_tests = (refl, refl, refl, refl)

run-WellFormed_example :
    WellFormed (run (initial with_token) (mount ∷ me_answered 0 (answer parent) home ∷ [])).session
run-WellFormed_example = run-WellFormed with_token (mount ∷ me_answered 0 (answer parent) home ∷ [])

routes_tests :
    (segments "/lists/preview-x" ≡ "" ∷ "lists" ∷ "preview-x" ∷ [])
    × (is_public_or_preview_path "/lists/preview-x" ≡ true)
    × (is_public_or_preview_path "/loginx" ≡ false)
    × ((app_route_gate platform (some "/join/k") signed_in).view ≡ children)
    × ((app_route_gate platform none (run (initial with_token) (logout ∷ [])).session).view
        ≡ nothing)
routes_tests = (refl, refl, refl, refl, refl)

app_route_gate-children_iff_example :
    ((app_route_gate platform (some "/wallet") signed_in).view ≡ children)
    ↔ (Public "/wallet" ⊎ Onboarded "/wallet" signed_in)
app_route_gate-children_iff_example =
    app_route_gate-children_iff platform (some "/wallet") signed_in

pin_login-kept_out_example :
    ((kiosk_gate (some true) (after_pin signed_in pin kid home)).view ≡ nothing)
    × ((kiosk_gate (some true) (after_pin signed_in pin kid home)).push ≡ some "/kiosk")
pin_login-kept_out_example = pin_login-kept_out signed_in pin kid home refl refl
