-- ===== src/Ai/Keys.antt =====
-- web/src/lib/ai/ai-keys.ts: the keys in the browser's storage, in tabs that share it; and the choice of a
-- provider by `handleAISuggest` of web/src/components/screens/recipes.tsx. Stored JSON
-- is taken for an object of texts: a key that is no text, or a value that is no object, counts as not given.
use tidyboard.Prelude.{
  Bool, true, false, List, [], ◌∷◌, ◌++◌, Option, none, some, String, if◌then◌else◌,
}
use tidyboard.Api.Query.{given}
use tidyboard.Api.Request.{Json, text, object, to_fields}
use tidyboard.Notes.{JsonCodec, get_field, text_of}
use tidyboard.Ai.{AiProvider, openai, anthropic, google}

pub record AiKeys : Type 0 where
  pub openai : Option String
  pub anthropic : Option String
  pub google : Option String

abbrev pub no_keys : AiKeys
no_keys = record { openai = none; anthropic = none; google = none }

abbrev pub keys_of : Option Json → AiKeys
keys_of (some (object fs)) = record {
  openai = text_of (get_field "openai" fs);
  anthropic = text_of (get_field "anthropic" fs);
  google = text_of (get_field "google" fs);
}
keys_of _ = no_keys

abbrev pub read_keys : (codec : JsonCodec) → Option codec.Text → AiKeys
read_keys codec none = no_keys
read_keys codec (some raw) = if codec.is_empty raw then no_keys else keys_of (codec.parse raw)

abbrev key_field : String → Option String → List (String × Json)
key_field name none = []
key_field name (some v) = (name, text v) ∷ []

abbrev pub keys_json : AiKeys → Json
keys_json k = object (
    to_fields (
      key_field "openai" k.openai
      ++ (key_field "anthropic" k.anthropic ++ key_field "google" k.google)))

abbrev pub with_key : AiProvider → Option String → AiKeys → AiKeys
with_key openai v k = record { openai = v; anthropic = k.anthropic; google = k.google }
with_key anthropic v k = record { openai = k.openai; anthropic = v; google = k.google }
with_key google v k = record { openai = k.openai; anthropic = k.anthropic; google = v }

pub data KeyChange : Type 0 where
  set_key : AiProvider → String → KeyChange
  clear_key : AiProvider → KeyChange
  clear_all : KeyChange

-- The keys that a change makes of those before.
abbrev pub changed : KeyChange → AiKeys → AiKeys
changed (set_key p v) k = with_key p (some v) k
changed (clear_key p) k = with_key p none k
changed clear_all k = no_keys

abbrev pub key_of : AiProvider → AiKeys → Option String
key_of openai k = k.openai
key_of anthropic k = k.anthropic
key_of google k = k.google

-- The provider that `handleAISuggest` takes.
abbrev pub first_configured : AiKeys → Option AiProvider
first_configured k =
    if given k.openai
    then some openai
    else if given k.anthropic
    then some anthropic
    else if given k.google
    then some google
    else none

pub data TabEvent : Type 0 where
  -- a change in the first tab or in the second
  in_one in_two : KeyChange → TabEvent
  -- `onStorage` in either
  hears_one hears_two : TabEvent

module _ (codec : JsonCodec) where
  -- Two tabs, with the keys that each shows and whether a storage event is on its way to it.
  pub record Tabs : Type 0 where
    pub stored : Option codec.Text
    pub one : AiKeys
    pub two : AiKeys
    pub told_one : Bool
    pub told_two : Bool

  -- What a change leaves in the storage.
  abbrev pub stored_after : KeyChange → AiKeys → Option codec.Text
  stored_after (set_key p v) k = some (codec.stringify (keys_json (with_key p (some v) k)))
  stored_after (clear_key p) k = some (codec.stringify (keys_json (with_key p none k)))
  stored_after clear_all k = none

  -- The browser tells the other tab; a write that leaves the storage as it was counts as a change too.
  abbrev pub tab_step : Tabs → TabEvent → Tabs
  tab_step s (in_one c) = record {
    stored = stored_after c s.one;
    one = changed c s.one;
    two = s.two;
    told_one = s.told_one;
    told_two = true;
  }
  tab_step s (in_two c) = record {
    stored = stored_after c s.two;
    one = s.one;
    two = changed c s.two;
    told_one = true;
    told_two = s.told_two;
  }
  tab_step s hears_one =
      if s.told_one
      then record {
        stored = s.stored;
        one = read_keys codec s.stored;
        two = s.two;
        told_one = false;
        told_two = s.told_two;
      }
      else s
  tab_step s hears_two =
      if s.told_two
      then record {
        stored = s.stored;
        one = s.one;
        two = read_keys codec s.stored;
        told_one = s.told_one;
        told_two = false;
      }
      else s

  abbrev pub tab_run : Tabs → List TabEvent → Tabs
  tab_run s [] = s
  tab_run s (e ∷ es) = tab_run (tab_step s e) es

  -- Two tabs that are opened on what is stored.
  abbrev pub opened : Option codec.Text → Tabs
  opened stored = record {
    stored = stored;
    one = read_keys codec stored;
    two = read_keys codec stored;
    told_one = false;
    told_two = false;
  }
