-- ===== src/Oidc/Callback.antt =====
-- web/src/app/auth/callback/page.tsx: the page that ends a sign-in, with the session that it signs in.
-- Its events are the end of handleCallback, the answers that acceptToken waits for, its timer, and the
-- unmounting.
use tidyboard.Prelude.{
  ℕ, ◌≡◌, refl, eq_iff, Bool, true, false, not, ◌&&◌, List, [], ◌∷◌, Option, none, some, String,
  truthy, ◌+++◌, if◌then◌else◌,
}
use tidyboard.Api.Request.{Platform}
use tidyboard.Auth.Session.{AuthHousehold, AuthStatus, MeResponse, Reply, answer, Session}
use tidyboard.Auth.Provider.{World, accept_token, me_answered, step}
use tidyboard.Auth.Orders.{idle}
use tidyboard.Oidc.{
  OidcConfig, TokenResponse, empty_storage, sign_in, OidcError, missing_code, missing_verifier,
  state_mismatch, missing_id_token, unreachable, exchange_failed, granted, Outcome, failed, done,
  handle_callback,
}

-- `awaiting` is the page to go to once acceptToken has ended.
pub record CallbackPage : Type 0 where
  pub error : Option String
  pub cancelled : Bool
  pub awaiting : Option String
  pub timer : Bool
  pub replaced : List String
  pub world : World

pub data PageEvent : Type 0 where
  exchanged : Outcome → PageEvent
  accepted : ℕ → Reply MeResponse → Reply (List AuthHousehold) → PageEvent
  timer_fired unmounted : PageEvent

-- The `message` of each error; the browser has its own for an endpoint that it cannot reach.
abbrev pub error_message : Platform → String → OidcError → String
error_message p offline missing_code = "oidc: missing authorization code"
error_message p offline missing_verifier = "oidc: missing PKCE verifier (session expired?)"
error_message p offline state_mismatch = "oidc: state mismatch — possible CSRF"
error_message p offline missing_id_token = "oidc: token response missing id_token"
error_message p offline unreachable = offline
error_message p offline (exchange_failed status text) =
    "oidc: token exchange failed (" +++ p.number_text status +++ "): " +++ text

-- The page as its effect leaves it, with a configuration or without.
abbrev pub mounted : Option OidcConfig → World → CallbackPage
mounted cfg w = record {
  error = missing cfg;
  cancelled = false;
  awaiting = none;
  timer = false;
  replaced = [];
  world = w;
}
  where
    missing : Option OidcConfig → Option String
    missing none = some "Cognito is not configured for this build."
    missing (some _) = none

abbrev pub with_world : Option String → World → CallbackPage → CallbackPage
with_world awaiting w c = record {
  error = c.error;
  cancelled = c.cancelled;
  awaiting = awaiting;
  timer = c.timer;
  replaced = c.replaced;
  world = w;
}

abbrev pub going_to : String → CallbackPage → CallbackPage
going_to path c = record {
  error = c.error;
  cancelled = c.cancelled;
  awaiting = c.awaiting;
  timer = false;
  replaced = path ∷ c.replaced;
  world = c.world;
}

abbrev pub failed_with : String → CallbackPage → CallbackPage
failed_with message c = record {
  error = some message;
  cancelled = c.cancelled;
  awaiting = c.awaiting;
  timer = true;
  replaced = c.replaced;
  world = c.world;
}

abbrev pub cancel : CallbackPage → CallbackPage
cancel c = record {
  error = c.error;
  cancelled = true;
  awaiting = c.awaiting;
  timer = c.timer;
  replaced = c.replaced;
  world = c.world;
}

-- acceptToken ends with the answers, and the page leaves unless it is gone.
abbrev pub accept_ends :
    Option String → ℕ → Reply MeResponse → Reply (List AuthHousehold) → CallbackPage → CallbackPage
accept_ends none n me hs c = c
accept_ends (some path) n me hs c =
    let after = with_world none (step c.world (me_answered n me hs)) c in
    if c.cancelled then after else going_to path after

abbrev pub page_step : Platform → String → CallbackPage → PageEvent → CallbackPage
page_step p offline c (exchanged (done r)) =
    if c.cancelled
    then c
    else with_world (some r.return_to) (step c.world (accept_token r.id_token)) c
page_step p offline c (exchanged (failed e)) =
    if c.cancelled then c else failed_with (error_message p offline e) c
page_step p offline c (accepted n me hs) = accept_ends c.awaiting n me hs c
page_step p offline c timer_fired = if c.timer && not c.cancelled then going_to "/login" c else c
page_step p offline c unmounted = cancel c

abbrev pub page_run : Platform → String → CallbackPage → List PageEvent → CallbackPage
page_run p offline c [] = c
page_run p offline c (e ∷ es) = page_run p offline (page_step p offline c e) es

-- A sign-in whose callback brings a code and the state it left with, whose exchange is granted an ID token
-- and whose account the server then knows, ends on the page that asked for it, with a session that is
-- authenticated with that token, no error shown, and nothing left in the storage of the exchange.
pub page_run-sign_in :
    (p : Platform) (offline : String) (cfg : OidcConfig)
    (verifier state challenge return_to code t : String) (now : ℕ) (tok : TokenResponse)
    (s : Session) (me : MeResponse) (hs : Reply (List AuthHousehold))
    → truthy verifier ≡ true
    → truthy state ≡ true
    → truthy code ≡ true
    → tok.id_token ≡ some t
    → truthy t ≡ true
    → truthy me.account_id ≡ true
    → (let (left, outcome) =
          handle_callback cfg now
            (some code)
            (some state)
            (answer (granted tok))
            (sign_in p cfg verifier state challenge return_to).0 in
        let page =
          page_run p offline
            (mounted (some cfg) (idle s))
            (exchanged outcome ∷ accepted 0 (answer me) hs ∷ []) in
        (page.replaced ≡ return_to ∷ [])
        × (page.world.session.status ≡ AuthStatus.authenticated)
        × (page.world.session.token ≡ some t)
        × (page.error ≡ none)
        × (left ≡ empty_storage))
page_run-sign_in p offline cfg verifier state challenge return_to code t now tok s me hs hv hs2 hc
      ht hn ha =
    rw (hc, hv, hs2, (eq_iff state state).1 refl, ht, hn, ha) (refl, refl, refl, refl, refl)
