-- ===== src/Api/Client.antt =====
-- web/src/lib/api/client.ts, `request`: what is sent for a request, and what a response becomes. The
-- response is the browser's: its body is given as `res.json()` would give it, for an error as the part
-- of it that the client reads.
use tidyboard.Prelude.{
  ◌≡◌, ◌⊎◌, refl, ℕ, Bool, true, false, not, ◌&&◌, ◌||◌, List, [], ◌∷◌, Option, none, some, String,
  ◌+++◌, truthy, if◌then◌else◌, or_else, is_some, ◌==◌, Bool-cases, inl, inr,
}
use tidyboard.Api.Request.{Method, get, post, put, patch, delete, Json, Request}
use tidyboard.Api.Query.{given, shown}

pub record ApiError : Type 0 where
  pub code : Option String
  pub message : Option String
  pub status : ℕ
  pub request_id : Option String
  pub url : String
  pub method : String

-- The fields that an error body has; none is undefined.
pub record Envelope : Type 0 where
  pub code : Option String
  pub message : Option String
  pub status : Option ℕ

-- A body that is no JSON, the JSON null, or any other JSON.
pub data ErrorBody : Type 0 where
  not_json null_json : ErrorBody
  envelope : Envelope → ErrorBody

pub record Response (A : Type 0) : Type 0 where
  pub ok : Bool
  pub status : ℕ
  pub status_text : String
  pub request_id : Option String
  pub error_body : ErrorBody
  -- the value of a body that parses
  pub json : Option A

-- `request` resolves, to undefined or a value, rejects with an ApiError, or rejects with a script error.
pub data Outcome (A : Type 0) : Type 0 where
  nothing : Outcome A
  value : A → Outcome A
  api_error : ApiError → Outcome A
  script_error : Outcome A

pub record Sent : Type 0 where
  pub url : String
  pub method : String
  pub headers : List (String × String)
  pub body : Option Json

abbrev pub method_text : Method → String
method_text get = "GET"
method_text post = "POST"
method_text put = "PUT"
method_text patch = "PATCH"
method_text delete = "DELETE"

-- What goes to `fetch`, for the stored token.
abbrev pub sent : String → Option String → Request → Sent
sent base_url token r = record {
  url = base_url +++ r.path;
  method = method_text r.method;
  headers =
      ("Content-Type", "application/json")
      ∷ (if given token then ("Authorization", "Bearer " +++ shown token) ∷ [] else []);
  body = r.body;
}

abbrev error_of : {A : Type 0} → String → String → Response A → Envelope → ApiError
error_of url method res e = record {
  code = e.code;
  message = e.message;
  status = or_else e.status res.status;
  request_id = res.request_id;
  url = url;
  method = method;
}

abbrev failed : {A : Type 0} → String → String → Response A → ErrorBody → Outcome A
failed url method res not_json = api_error (
    error_of url method res (record {
      code = some "non_json_response";
      message = some (if truthy res.status_text then res.status_text else "Server error");
      status = some res.status;
    }))
failed url method res null_json = script_error
failed url method res (envelope e) = api_error (error_of url method res e)

abbrev parsed : {A : Type 0} → Option A → Outcome A
parsed none = script_error
parsed (some a) = value a

-- From the response on.
abbrev pub settle : {A : Type 0} → String → String → Response A → Outcome A
settle url method res =
    if not res.ok
    then failed url method res res.error_body
    else if res.status == 204
    then nothing
    else parsed res.json

abbrev pub resolves : {A : Type 0} → Outcome A → Bool
resolves nothing = true
resolves (value _) = true
resolves (api_error _) = false
resolves script_error = false

-- The outcome is an ApiError that names the request.
abbrev pub Reports : {A : Type 0} → String → String → Outcome A → Type 0
Reports url method nothing = ⊥
Reports url method (value _) = ⊥
Reports url method (api_error e) = (e.url ≡ url) × (e.method ≡ method)
Reports url method script_error = ⊥

-- A response resolves exactly if it is ok and has the status 204 or a body that parses. An error
-- response whose body is not the JSON null rejects with an ApiError that has the request's URL and method.
pub settle-resolves :
    {A : Type 0} (url method : String) (res : Response A)
    → (resolves (settle url method res) ≡ (res.ok && ((res.status == 204) || is_some res.json)))
      × ((res.ok ≡ true)
          ⊎ ((res.error_body ≡ null_json) ⊎ Reports url method (settle url method res)))
settle-resolves {A} url method res = elim (Bool-cases res.ok) [
  | inl e ↦ rw e (ok_case (res.status == 204) res.json, inl refl)
  | inr e ↦ rw e (error_rejects res.error_body, inr (error_reports res.error_body))
]
  where
    ok_case :
        (no_content : Bool) (json : Option A)
        → resolves (if no_content then nothing else parsed json) ≡ (no_content || is_some json)
    ok_case true json = refl
    ok_case false none = refl
    ok_case false (some a) = refl

    error_rejects : (body : ErrorBody) → resolves (failed url method res body) ≡ false
    error_rejects not_json = refl
    error_rejects null_json = refl
    error_rejects (envelope e) = refl

    error_reports :
        (body : ErrorBody) → (body ≡ null_json) ⊎ Reports url method (failed url method res body)
    error_reports not_json = inr (refl, refl)
    error_reports null_json = inl refl
    error_reports (envelope e) = inr (refl, refl)
