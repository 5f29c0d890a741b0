-- ===== src/Ai/Turns.antt =====
-- web/src/lib/ai/client.ts: the conversation in the bodies that `callAI` sends.
use tidyboard.Prelude.{
  ◌≡◌, refl, ap, Bool, true, false, List, [], ◌∷◌, Option, none, some, if◌then◌else◌, String,
  str_eq, map, keep,
}
use tidyboard.Api.Request.{Json, Items, text, array, nil, cons}
use tidyboard.Ai.{
  AiProvider, openai, anthropic, google, user, assistant, AiMessage, call_ai, member_of, first_of,
  json_items, message_json, turn_json, google_role, is_system, spoken,
}

-- One turn of a conversation: whether the model says it, and what is said.
abbrev pub said : Bool × String → AiMessage
said (true, s) = record { role = assistant; content = s }
said (false, s) = record { role = user; content = s }

-- Whether a turn is the model's, by the role that the provider documents for it; none for a role that it
-- refuses.
abbrev by_model : AiProvider → Option Json → Option Bool
by_model google (some (text s)) =
    if str_eq s "model" then some true else if str_eq s "user" then some false else none
by_model _ (some (text s)) =
    if str_eq s "assistant" then some true else if str_eq s "user" then some false else none
by_model _ _ = none

abbrev both : Option Bool → Option Json → Option (Bool × String)
both (some b) (some (text s)) = some (b, s)
both _ _ = none

-- A turn as the provider documents it: OpenAI and Anthropic have its text under `content`, Google under
-- `parts`.
abbrev heard_turn : AiProvider → Json → Option (Bool × String)
heard_turn google j =
    both (by_model google (member_of "role" (some j)))
      (member_of "text" (first_of (member_of "parts" (some j))))
heard_turn p j = both (by_model p (member_of "role" (some j))) (member_of "content" (some j))

abbrev onto : Option (Bool × String) → Option (List (Bool × String)) → Option (List (Bool × String))
onto (some t) (some ts) = some (t ∷ ts)
onto _ _ = none

abbrev heard_items : AiProvider → Items → Option (List (Bool × String))
heard_items p nil = some []
heard_items p (cons j js) = onto (heard_turn p j) (heard_items p js)

abbrev heard_array : AiProvider → Option Json → Option (List (Bool × String))
heard_array p (some (array js)) = heard_items p js
heard_array p _ = none

-- The turns that the provider reads in a body; none when it refuses one.
abbrev pub heard : AiProvider → Json → Option (List (Bool × String))
heard google j = heard_array google (member_of "contents" (some j))
heard p j = heard_array p (member_of "messages" (some j))

spoken-said : (ts : List (Bool × String)) → spoken (map said ts) ≡ map said ts
spoken-said [] = refl
spoken-said ((true, s) ∷ ts) = ap (λ ms. said (true, s) ∷ ms) (spoken-said ts)
spoken-said ((false, s) ∷ ts) = ap (λ ms. said (false, s) ∷ ms) (spoken-said ts)

no_system : (ts : List (Bool × String)) → keep is_system (map said ts) ≡ []
no_system [] = refl
no_system ((true, s) ∷ ts) = no_system ts
no_system ((false, s) ∷ ts) = no_system ts

heard_openai :
    (ts : List (Bool × String))
    → heard_items openai (json_items (map message_json (map said ts))) ≡ some ts
heard_openai [] = refl
heard_openai ((true, s) ∷ ts) = rw (heard_openai ts) refl
heard_openai ((false, s) ∷ ts) = rw (heard_openai ts) refl

heard_anthropic :
    (ts : List (Bool × String))
    → heard_items anthropic (json_items (map message_json (map said ts))) ≡ some ts
heard_anthropic [] = refl
heard_anthropic ((true, s) ∷ ts) = rw (heard_anthropic ts) refl
heard_anthropic ((false, s) ∷ ts) = rw (heard_anthropic ts) refl

heard_google :
    (ts : List (Bool × String))
    → heard_items google
        (json_items (map (λ m. turn_json (google_role m.role) m.content) (map said ts)))
      ≡ some ts
heard_google [] = refl
heard_google ((true, s) ∷ ts) = rw (heard_google ts) refl
heard_google ((false, s) ∷ ts) = rw (heard_google ts) refl

-- A conversation of turns of the user and of the model, of any length, whichever of the three providers it is
-- sent to and whatever the key and the model: the provider accepts the role of each turn in the body of the
-- request (OpenAI and Anthropic know "user" and "assistant", Google "user" and "model"), and what it reads
-- there is the conversation as it went in, with no turn lost, moved or ascribed to the other side.
pub heard-call_ai :
    (p : AiProvider) (ts : List (Bool × String)) (api_key : String) (model : Option String)
    → heard p (call_ai p (map said ts) api_key model).body ≡ some ts
heard-call_ai openai ts api_key model = heard_openai ts
heard-call_ai anthropic ts api_key model = rw (spoken-said ts) (heard_anthropic ts)
heard-call_ai google ts api_key model = rw (no_system ts, spoken-said ts) (heard_google ts)
