-- ===== src/Oidc.antt =====
-- web/src/lib/auth/oidc.ts: the sign-in with an authorization code and PKCE. The random bytes, the
-- digest, `btoa` and the answer of the token endpoint are inputs; `sessionStorage` is its three entries.
-- web/src/app/auth/callback/page.tsx is here too: the page that ends the sign-in.
mod Encoding
mod Exchange
mod Callback
mod Tests
use Prim.Native.Char.{Char, code}
use Prim.Native.String.{[] as nil, ◌∷◌ as chars}
use tidyboard.Prelude.{
  ℕ, ◌+◌, ◌*◌, Bool, true, false, not, ◌&&◌, ◌||◌, List, [], ◌∷◌, Option, none, some, String,
  truthy, ◌+++◌, if◌then◌else◌, or_else, str_eq, ◌==◌,
}
use tidyboard.Api.Request.{Platform}
use tidyboard.Api.Query.{given}
use tidyboard.Auth.Session.{Reply, answer, failure}

pub record OidcConfig : Type 0 where
  pub domain : String
  pub client_id : String
  pub redirect_uri : String
  pub logout_uri : String

pub record TokenResponse : Type 0 where
  pub id_token : Option String
  pub refresh_token : Option String
  pub expires_in : ℕ

-- `readOIDCConfig` of the two build variables and the window's origin, none without a window.
abbrev pub read_oidc_config : Option String → Option String → Option String → Option OidcConfig
read_oidc_config domain client_id origin =
    let from = or_else origin "https://tidyboard.org" in
    if not (given domain) || not (given client_id)
    then none
    else some (record {
      domain = or_else domain "";
      client_id = or_else client_id "";
      redirect_uri = from +++ "/auth/callback";
      logout_uri = from +++ "/";
    })

-- `.replace(/\+/g, "-").replace(/\//g, "_")`
abbrev pub url_char : Char → Char
url_char c = if code c == 43 then "-" else if code c == 47 then "_" else c

abbrev pub url_chars : String → String
url_chars nil = nil
url_chars (chars c s) = chars (url_char c) (url_chars s)

abbrev pub strip_onto : Char → String → String
strip_onto c nil = if code c == 61 then nil else chars c nil
strip_onto c (chars d s) = chars c (chars d s)

-- `.replace(/=+$/, "")`
abbrev pub strip_padding : String → String
strip_padding nil = nil
strip_padding (chars c s) = strip_onto c (strip_padding s)

abbrev pub base64_url_encode : (List ℕ → String) → List ℕ → String
base64_url_encode btoa bytes = strip_padding (url_chars (btoa bytes))

-- The browser's `sessionStorage` under the three keys of this module.
pub record SessionStorage : Type 0 where
  pub verifier : Option String
  pub state : Option String
  pub return_to : Option String

abbrev pub empty_storage : SessionStorage
empty_storage = record { verifier = none; state = none; return_to = none }

-- The storage and the address that `signIn` leaves for.
abbrev pub sign_in :
    Platform → OidcConfig → String → String → String → String → SessionStorage × String
sign_in p cfg verifier state challenge return_to = (
  record { verifier = some verifier; state = some state; return_to = some return_to },
  "https://"
      +++ cfg.domain
      +++ "/oauth2/authorize?"
      +++ p.search_params (
          ("response_type", "code")
          ∷ ("client_id", cfg.client_id)
          ∷ ("redirect_uri", cfg.redirect_uri)
          ∷ ("scope", "openid email profile")
          ∷ ("state", state)
          ∷ ("code_challenge", challenge)
          ∷ ("code_challenge_method", "S256")
          ∷ []),
)

pub data OidcError : Type 0 where
  missing_code missing_verifier state_mismatch missing_id_token unreachable : OidcError
  exchange_failed : ℕ → String → OidcError

-- The POST to the token endpoint.
pub record TokenRequest : Type 0 where
  pub url : String
  pub fields : List (String × String)
  pub return_to : String

-- What `handleCallback` has at its first `await`: a throw, or the request it sends.
pub data Begun : Type 0 where
  threw : OidcError → Begun
  sends : TokenRequest → Begun

abbrev pub token_request : OidcConfig → String → String → String → TokenRequest
token_request cfg code verifier return_to = record {
  url = "https://" +++ cfg.domain +++ "/oauth2/token";
  fields =
      ("grant_type", "authorization_code")
      ∷ ("client_id", cfg.client_id)
      ∷ ("code", code)
      ∷ ("redirect_uri", cfg.redirect_uri)
      ∷ ("code_verifier", verifier)
      ∷ [];
  return_to = return_to;
}

-- `!stateStored || stateStored !== stateInUrl`
abbrev pub state_differs : Option String → Option String → Bool
state_differs none in_url = true
state_differs (some stored) none = true
state_differs (some stored) (some in_url) = not (truthy stored) || not (str_eq stored in_url)

-- The code and the state of the address that the browser came back to.
abbrev pub begin_callback :
    OidcConfig → Option String → Option String → SessionStorage → SessionStorage × Begun
begin_callback cfg code in_url st = if not (given code) then (st, threw missing_code) else (
  empty_storage,
  if not (given st.verifier)
      then threw missing_verifier
      else if state_differs st.state in_url
      then threw state_mismatch
      else sends
          (token_request cfg (or_else code "") (or_else st.verifier "") (or_else st.return_to "/")),
)

pub record CallbackResult : Type 0 where
  pub id_token : String
  pub refresh_token : Option String
  pub expires_at : ℕ
  pub return_to : String

-- The answer of the token endpoint: a JSON under an ok status, or a status with a text.
pub data TokenReply : Type 0 where
  granted : TokenResponse → TokenReply
  refused : ℕ → String → TokenReply

pub data Outcome : Type 0 where
  failed : OidcError → Outcome
  done : CallbackResult → Outcome

-- `handleCallback` from its first `await` on.
abbrev pub finish_callback : ℕ → TokenRequest → Reply TokenReply → Outcome
finish_callback now r failure = failed unreachable
finish_callback now r (answer (refused status text)) = failed (exchange_failed status text)
finish_callback now r (answer (granted tok)) =
    if given tok.id_token
    then done (record {
      id_token = or_else tok.id_token "";
      refresh_token = tok.refresh_token;
      expires_at = now + tok.expires_in * 1000;
      return_to = r.return_to;
    })
    else failed missing_id_token

-- The whole `handleCallback`.
abbrev pub handle_callback :
    OidcConfig
    → ℕ
    → Option String
    → Option String
    → Reply TokenReply
    → SessionStorage
    → SessionStorage × Outcome
handle_callback cfg now code in_url reply st =
    let (left, begun) = begin_callback cfg code in_url st in (left, ended begun)
  where
    ended : Begun → Outcome
    ended (threw e) = failed e
    ended (sends r) = finish_callback now r reply

abbrev pub sign_out : Platform → OidcConfig → String
sign_out p cfg =
    "https://"
    +++ cfg.domain
    +++ "/logout?"
    +++ p.search_params (("client_id", cfg.client_id) ∷ ("logout_uri", cfg.logout_uri) ∷ [])
