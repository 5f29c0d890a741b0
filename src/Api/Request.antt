-- ===== src/Api/Request.antt =====
-- web/src/lib/api/client.ts, the `api` object: a request is its method, its path below the base URL
-- and its JSON body. What the browser does with texts (`encodeURIComponent`, `URLSearchParams`,
-- numbers in template strings) is a parameter.
use tidyboard.Prelude.{
  ℕ, Bool, List, [], ◌∷◌, Option, none, some, String, truthy, ◌+++◌, if◌then◌else◌,
}
use tidyboard.Prelude.Int.{ℤ}

mutual
  pub data Json : Type 0 where
    null : Json
    bool : Bool → Json
    number : ℤ → Json
    text : String → Json
    array : Items → Json
    object : Fields → Json

  pub data Items : Type 0 where
    nil : Items
    cons : Json → Items → Items

  pub data Fields : Type 0 where
    end : Fields
    field : String → Json → Fields → Fields

abbrev pub to_fields : List (String × Json) → Fields
to_fields [] = end
to_fields ((k, v) ∷ rest) = field k v (to_fields rest)

-- An object literal.
abbrev pub obj : List (String × Json) → Json
obj fs = object (to_fields fs)

abbrev pub to_items : List String → Items
to_items [] = nil
to_items (s ∷ rest) = cons (text s) (to_items rest)

abbrev pub texts : List String → Json
texts ss = array (to_items ss)

-- `...(x !== undefined ? { key: x } : {})`
abbrev pub if_defined : String → Option Json → List (String × Json)
if_defined key none = []
if_defined key (some v) = (key, v) ∷ []

-- `...(x ? { key: x } : {})` for a text that may be undefined.
abbrev pub if_truthy : String → Option String → List (String × Json)
if_truthy key none = []
if_truthy key (some s) = if truthy s then (key, text s) ∷ [] else []

abbrev pub text_or_null : Option String → Json
text_or_null none = null
text_or_null (some s) = text s

pub data Method : Type 0 where
  get post put patch delete : Method

pub record Request : Type 0 where
  pub method : Method
  pub path : String
  pub body : Option Json

abbrev pub api_get : String → Request
api_get path = record { method = get; path = path; body = none }

abbrev pub api_post : String → Json → Request
api_post path body = record { method = post; path = path; body = some body }

abbrev pub api_put : String → Json → Request
api_put path body = record { method = put; path = path; body = some body }

abbrev pub api_patch : String → Json → Request
api_patch path body = record { method = patch; path = path; body = some body }

abbrev pub api_delete : String → Request
api_delete path = record { method = delete; path = path; body = none }

-- The browser's own functions on texts.
pub record Platform : Type 0 where
  pub encode_uri_component : String → String
  pub search_params : List (String × String) → String
  pub number_text : ℕ → String

-- `if (value) qs.set(key, value)`
abbrev pub set_if : String → Option String → List (String × String)
set_if key none = []
set_if key (some s) = if truthy s then (key, s) ∷ [] else []

-- `qs.toString() ? "?" + qs.toString() : ""`
abbrev pub suffix : Platform → List (String × String) → String
suffix p ps = if truthy (p.search_params ps) then "?" +++ p.search_params ps else ""
