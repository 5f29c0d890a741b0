-- ===== src/Ai/Tests.antt =====
-- Two tabs that change and clear keys, the choice of a provider, and what becomes of responses. The codec
-- of the tests keeps a JSON value as its own text.
use tidyboard.Prelude.{◌≡◌, refl, Bool, true, false, List, [], ◌∷◌, Option, none, some, String, map}
use tidyboard.Api.Request.{Json, text, array, nil, cons, obj}
use tidyboard.Notes.{JsonCodec}
use tidyboard.Ai.{
  openai, anthropic, google, user, assistant, system, call_ai, answered, ai_error, unparsed, settle,
}
use tidyboard.Ai.Keys.{
  TabEvent, set_key, clear_key, clear_all, in_one, in_two, hears_one, hears_two, tab_run, opened,
  first_configured, read_keys,
}
use tidyboard.Ai.Tabs.{tab_run-opened}
use tidyboard.Ai.Turns.{said, heard, heard-call_ai}

abbrev values : JsonCodec
values = record {
  Text = Json;
  is_empty = λ j. false;
  stringify = λ j. j;
  parse = λ j. some j;
  parse-stringify = λ j. refl;
  stringify-nonempty = λ j. refl;
}

abbrev stored_keys : Option Json
stored_keys = some (obj (("google", text "g1") ∷ ("openai", text "o1") ∷ []))

abbrev edits : List TabEvent
edits =
    in_one (clear_key openai)
    ∷ in_two (set_key anthropic "a1")
    ∷ hears_one
    ∷ in_one (clear_key google)
    ∷ hears_two
    ∷ hears_one
    ∷ []

-- The second tab writes before it has heard of the first's change, and brings the removed key back.
key_tests :
    (first_configured (read_keys values stored_keys) ≡ some openai)
    × (first_configured (tab_run values (opened values stored_keys) edits).one ≡ some openai)
    × ((tab_run values (opened values stored_keys) edits).one.anthropic ≡ some "a1")
    × ((tab_run values (opened values stored_keys) (in_one clear_all ∷ [])).stored ≡ none)
key_tests = (refl, refl, refl, refl)

tab_run-opened_example :
    let s = tab_run values (opened values stored_keys) edits in
    (s.one ≡ s.two) × (s.two ≡ (opened values s.stored).two)
tab_run-opened_example = tab_run-opened values stored_keys edits refl refl

abbrev turns : List (Bool × String)
turns = (false, "What is for dinner?") ∷ (true, "Soup.") ∷ (false, "Again?") ∷ []

heard-call_ai_example : heard google (call_ai google (map said turns) "k" none).body ≡ some turns
heard-call_ai_example = heard-call_ai google turns "k" none

settle_tests :
    (settle openai (record {
      status = 401;
      is_ok = false;
      status_text = "Unauthorized";
      body = some (obj (("error", obj (("message", text "bad key") ∷ [])) ∷ []));
    })
      ≡ ai_error (text "bad key") 401 openai)
    × (settle google (record { status = 500; is_ok = false; status_text = "Oops"; body = none })
        ≡ ai_error (text "Oops") 500 google)
    × (settle anthropic (record {
      status = 200;
      is_ok = true;
      status_text = "OK";
      body = some (obj (("content", array (cons (obj (("text", text "hi") ∷ [])) nil)) ∷ []));
    })
        ≡ answered (text "hi"))
    × (settle anthropic (record { status = 200; is_ok = true; status_text = "OK"; body = none })
        ≡ unparsed)
settle_tests = (refl, refl, refl, refl)

-- A conversation with system messages, which Google gets as one turn of the user, first.
abbrev told : Option (List (Bool × String))
told =
    heard google
      (call_ai google
        (record { role = system; content = "Be brief." }
          ∷ record { role = user; content = "Hi" }
          ∷ record { role = assistant; content = "Hello" }
          ∷ record { role = system; content = "In French." }
          ∷ [])
        "k" none).body

told_test : told ≡ some ((false, "Be brief.\nIn French.") ∷ (false, "Hi") ∷ (true, "Hello") ∷ [])
told_test = refl
