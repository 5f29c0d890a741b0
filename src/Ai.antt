-- ===== src/Ai.antt =====
-- web/src/lib/ai/client.ts: the requests to AI providers and what becomes of their responses. Below it,
-- Ai/Keys is the store of keys (web/src/lib/ai/ai-keys.ts) with the choice of a provider by
-- web/src/components/screens/recipes.tsx, `handleAISuggest`.
pub mod Keys
mod Tabs
mod Turns
mod Tests
use tidyboard.Prelude.{
  ℕ, zero, suc, Bool, true, false, not, ◌&&◌, List, [], ◌∷◌, ◌++◌, Option, none, some, String,
  truthy, ◌+++◌, str_eq, if◌then◌else◌, keep, map, or_else,
}
use tidyboard.Prelude.Int.{pos}
use tidyboard.Api.Request.{
  Json, Items, Fields, null, bool, number, text, array, object, nil, cons, end, field, obj,
}
use tidyboard.Notes.{get_field}

pub data AiProvider : Type 0 where
  openai anthropic google : AiProvider

pub data AiRole : Type 0 where
  user assistant system : AiRole

pub record AiMessage : Type 0 where
  pub role : AiRole
  pub content : String

-- What `fetch` is called with, a POST.
pub record AiRequest : Type 0 where
  pub url : String
  pub headers : List (String × String)
  pub body : Json

abbrev pub role_text : AiRole → String
role_text user = "user"
role_text assistant = "assistant"
role_text system = "system"

abbrev pub is_system : AiMessage → Bool
is_system m = elim m.role [ system ↦ true | user ↦ false | assistant ↦ false ]

abbrev pub json_items : List Json → Items
json_items [] = nil
json_items (j ∷ js) = cons j (json_items js)

abbrev pub message_json : AiMessage → Json
message_json m = obj (("role", text (role_text m.role)) ∷ ("content", text m.content) ∷ [])

abbrev pub joined_lines : List String → String
joined_lines [] = ""
joined_lines (s ∷ []) = s
joined_lines (s ∷ t ∷ ss) = s +++ "\n" +++ joined_lines (t ∷ ss)

abbrev pub openai_request : List AiMessage → String → String → AiRequest
openai_request messages model api_key = record {
  url = "https://api.openai.com/v1/chat/completions";
  headers = ("Content-Type", "application/json") ∷ ("Authorization", "Bearer " +++ api_key) ∷ [];
  body =
      obj
        (("model", text model) ∷ ("messages", array (json_items (map message_json messages))) ∷ []);
}

abbrev system_texts : List AiMessage → List String
system_texts messages = map (λ m. m.content) (keep is_system messages)

abbrev pub spoken : List AiMessage → List AiMessage
spoken messages = keep (λ m. not (is_system m)) messages

abbrev if_any : List String → List (String × Json)
if_any [] = []
if_any (s ∷ ss) = ("system", text (joined_lines (s ∷ ss))) ∷ []

abbrev pub anthropic_request : List AiMessage → String → String → AiRequest
anthropic_request messages model api_key = record {
  url = "https://api.anthropic.com/v1/messages";
  headers =
      ("Content-Type", "application/json")
      ∷ ("x-api-key", api_key)
      ∷ ("anthropic-version", "2023-06-01")
      ∷ [];
  body = obj (
      ("model", text model)
      ∷ ("max_tokens", number (pos 1024))
      ∷ ("messages", array (json_items (map message_json (spoken messages))))
      ∷ if_any (system_texts messages));
}

abbrev pub turn_json : String → String → Json
turn_json role content =
    obj (("role", text role) ∷ ("parts", array (cons (obj (("text", text content) ∷ [])) nil)) ∷ [])

abbrev pub google_role : AiRole → String
google_role user = "user"
google_role assistant = "model"
google_role system = "user"

abbrev contents : List AiMessage → List Json
contents messages = map (λ m. turn_json (google_role m.role) m.content) (spoken messages)

abbrev pub system_text : List AiMessage → String
system_text messages = joined_lines (system_texts messages)

abbrev final_contents : List AiMessage → List Json
final_contents messages =
    if truthy (system_text messages)
    then turn_json "user" (system_text messages) ∷ contents messages
    else contents messages

abbrev pub google_request : List AiMessage → String → String → AiRequest
google_request messages model api_key = record {
  url =
      "https://generativelanguage.googleapis.com/v1beta/models/" +++ model
      +++ ":generateContent?key=" +++ api_key;
  headers = ("Content-Type", "application/json") ∷ [];
  body = obj (("contents", array (json_items (final_contents messages))) ∷ []);
}

-- `callAI`, to its `fetch`; a model that is not given is the provider's default.
abbrev pub call_ai : AiProvider → List AiMessage → String → Option String → AiRequest
call_ai openai messages api_key model =
    openai_request messages (or_else model "gpt-4o-mini") api_key
call_ai anthropic messages api_key model =
    anthropic_request messages (or_else model "claude-haiku-20240307") api_key
call_ai google messages api_key model =
    google_request messages (or_else model "gemini-1.5-flash") api_key

-- `value?.key`, where a value that has no such key gives undefined.
abbrev pub member_of : String → Option Json → Option Json
member_of key none = none
member_of key (some (object fs)) = get_field key fs
member_of key (some _) = none

-- `value?.[0]`
abbrev pub first_of : Option Json → Option Json
first_of none = none
first_of (some (array (cons j js))) = some j
first_of (some (object fs)) = get_field "0" fs
first_of (some _) = none

-- `value ?? other`
abbrev pub or_json : Option Json → Json → Json
or_json none other = other
or_json (some null) other = other
or_json (some (bool b)) other = bool b
or_json (some (number n)) other = number n
or_json (some (text s)) other = text s
or_json (some (array js)) other = array js
or_json (some (object fs)) other = object fs

abbrev pub answer_text : AiProvider → Json → Json
answer_text openai data_ =
    or_json
      (member_of "content" (member_of "message" (first_of (member_of "choices" (some data_)))))
      (text "")
answer_text anthropic data_ =
    or_json (member_of "text" (first_of (member_of "content" (some data_)))) (text "")
answer_text google data_ =
    or_json
      (member_of "text" (
        first_of (
          member_of "parts"
            (member_of "content" (first_of (member_of "candidates" (some data_)))))))
      (text "")

pub record AiResponse : Type 0 where
  pub status : ℕ
  pub is_ok : Bool
  pub status_text : String
  -- the body that `json()` gives, none where it throws
  pub body : Option Json

pub data AiOutcome : Type 0 where
  answered : Json → AiOutcome
  -- an `AIError`: message, status and provider
  ai_error : Json → ℕ → AiProvider → AiOutcome
  -- the error of a body that does not parse
  unparsed : AiOutcome

-- The rest of the three calls, behind their `fetch`.
abbrev pub settle : AiProvider → AiResponse → AiOutcome
settle p r = if r.is_ok then parsed r.body else failed r.body
  where
    parsed : Option Json → AiOutcome
    parsed none = unparsed
    parsed (some j) = answered (answer_text p j)

    failed : Option Json → AiOutcome
    failed body =
        ai_error (or_json (member_of "message" (member_of "error" body)) (text r.status_text))
          r.status p
