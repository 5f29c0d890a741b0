-- ===== src/Oidc/Tests.antt =====
-- A sign-in from the lists page, its callback, and the same address opened again.
use tidyboard.Prelude.{◌≡◌, ◌↔◌, ◌≤◌, refl, List, [], ◌∷◌, none, some, true}
use tidyboard.Api.Sample.{platform}
use tidyboard.Api.Query.{given}
use tidyboard.Auth.Session.{answer, failure, AuthStatus, MeResponse, Session}
use tidyboard.Auth.Provider.{initial}
use tidyboard.Auth.Orders.{idle}
use tidyboard.Oidc.Callback.{
  mounted, page_run, exchanged, accepted, timer_fired, unmounted, page_run-sign_in,
}
use tidyboard.Oidc.{
  OidcConfig, TokenResponse, SessionStorage, empty_storage, sign_in, begin_callback, refused,
  granted, failed, handle_callback, exchange_failed, state_mismatch, missing_verifier, missing_code,
  base64_url_encode, read_oidc_config,
}
use tidyboard.Oidc.Exchange.{
  Visit, leaves, comes_back, requests, sign_ins, sent, begin_callback-sends_iff, requests-sign_ins,
}

abbrev config : OidcConfig
config = record {
  domain = "login.example.org";
  client_id = "web";
  redirect_uri = "https://tidyboard.org/auth/callback";
  logout_uri = "https://tidyboard.org/";
}

abbrev tokens : TokenResponse
tokens = record { id_token = some "jwt"; refresh_token = none; expires_in = 3600 }

abbrev stored : SessionStorage
stored = (sign_in platform config "v1" "s1" "c1" "/lists").0

abbrev visits : List Visit
visits =
    leaves "v1" "s1" "/lists"
    ∷ comes_back (some "k") (some "s1")
    ∷ comes_back (some "k") (some "s1")
    ∷ []

oidc_tests :
    (read_oidc_config (some "login.example.org") (some "web") none ≡ some config)
    × (read_oidc_config (some "") (some "web") none ≡ none)
    × ((handle_callback config 0 (some "k") (some "forged") (answer (granted tokens)) stored).1
        ≡ failed state_mismatch)
    × ((handle_callback config 0 (some "k") (some "s1") (answer (refused 400 "no")) stored).1
        ≡ failed (exchange_failed 400 "no"))
    × (handle_callback config 0 none (some "s1") failure stored ≡ (stored, failed missing_code))
    × ((handle_callback config 0 (some "k") (some "s1") failure empty_storage).1
        ≡ failed missing_verifier)
    × (base64_url_encode (λ _. "a+/Z9==") [] ≡ "a-_Z9")
    × (requests platform config empty_storage visits ≡ 1)
oidc_tests = (refl, refl, refl, refl, refl, refl, refl, refl)

begin_callback-sends_iff_example :
    (sent (begin_callback config (some "k") (some "s1") stored).1 ≡ 1) ↔ (
      (given (some "k") ≡ true)
      × (given stored.verifier ≡ true)
      × (given stored.state ≡ true)
      × (stored.state ≡ some "s1"))
begin_callback-sends_iff_example = begin_callback-sends_iff config (some "k") (some "s1") stored

requests-sign_ins_example : requests platform config empty_storage visits ≤ sign_ins visits
requests-sign_ins_example = requests-sign_ins platform config visits

abbrev nobody : Session
nobody = (initial (record { works = true; token = none })).session

abbrev account : MeResponse
account = record { account_id = "a1"; household_id = none; member_id = none; role = "adult" }

callback_tests :
    ((page_run platform "offline" (mounted none (idle nobody)) []).error
      ≡ some "Cognito is not configured for this build.")
    × ((page_run platform "offline"
          (mounted (some config) (idle nobody))
          (exchanged (failed state_mismatch) ∷ timer_fired ∷ timer_fired ∷ [])).replaced
        ≡ "/login" ∷ [])
    × ((page_run platform "offline"
          (mounted (some config) (idle nobody))
          (unmounted ∷ exchanged (failed state_mismatch) ∷ timer_fired ∷ [])).replaced
        ≡ [])
callback_tests = (refl, refl, refl)

page_run-sign_in_example :
    let (left, outcome) =
      handle_callback config 1000 (some "k") (some "s1") (answer (granted tokens)) stored in
    let page =
      page_run platform "offline"
        (mounted (some config) (idle nobody))
        (exchanged outcome ∷ accepted 0 (answer account) failure ∷ []) in
    (page.replaced ≡ "/lists" ∷ [])
    × (page.world.session.status ≡ AuthStatus.authenticated)
    × (page.world.session.token ≡ some "jwt")
    × (page.error ≡ none)
    × (left ≡ empty_storage)
page_run-sign_in_example =
    page_run-sign_in platform "offline" config "v1" "s1" "c1" "/lists" "k" "jwt" 1000 tokens nobody
      account failure refl refl refl refl refl refl
