-- ===== src/Api/Query.antt =====
-- web/src/lib/api/hooks.ts: what a hook hands to the query library. A read has the key it is cached
-- under, the request of its `queryFn` and its `enabled` and `refetchInterval` options; a write has the
-- request of its `mutationFn` and the filters that its `onSuccess` invalidates, in order. `withFallback`
-- and `withoutSampleFallback` call their first argument, so a read's request is that argument's.
-- web/src/lib/id.ts is here too: its `isUuid` guards a read.
use Prim.Native.Char.{Char, code}
use Prim.Native.String.{[] as nil, ◌∷◌ as chars}
use tidyboard.Prelude.{
  ℕ, zero, suc, ◌+◌, Bool, true, false, ◌&&◌, ◌||◌, List, Option, none, some, String, truthy,
  if◌then◌else◌, leb, ltb, ◌==◌,
}
use tidyboard.Api.Request.{Request, api_get, Json, text}
use tidyboard.Api.Keys.{Key, Filter}

pub record Query : Type 0 where
  pub key : Key
  -- what the `queryFn` asks for; none when it answers without a request
  pub request : Option Request
  pub enabled : Bool
  -- milliseconds until the next poll
  pub refetch_interval : Option ℕ

pub record Mutation : Type 0 where
  -- what the `mutationFn` sends; none when it answers without a request
  pub request : Option Request
  pub invalidates : List Filter

abbrev pub read_if : Bool → Key → String → Query
read_if enabled key path = record {
  key = key;
  request = some (api_get path);
  enabled = enabled;
  refetch_interval = none;
}

abbrev pub read : Key → String → Query
read = read_if true

abbrev pub write : Request → List Filter → Mutation
write request filters = record { request = some request; invalidates = filters }

-- `Boolean(x)` for a text that may be undefined.
abbrev pub given : Option String → Bool
given none = false
given (some s) = truthy s

-- `${x}` for a text that may be undefined, and for a flag.
abbrev pub shown : Option String → String
shown none = "undefined"
shown (some s) = s

abbrev pub shown_flag : Bool → String
shown_flag true = "true"
shown_flag false = "false"

abbrev pub json_text : Option String → Option Json
json_text none = none
json_text (some s) = some (text s)

-- `s.length` counts the code units of UTF-16.
abbrev pub utf16_length : String → ℕ
utf16_length nil = 0
utf16_length (chars c s) = (if ltb (code c) 65536 then 1 else 2) + utf16_length s

abbrev between : ℕ → ℕ → ℕ → Bool
between low high n = leb low n && leb n high

-- `[0-9a-f]` under the flag `i`.
abbrev pub is_hex : Char → Bool
is_hex c = between 48 57 (code c) || (between 65 70 (code c) || between 97 102 (code c))

abbrev pub is_dash : Char → Bool
is_dash c = code c == 45

-- One character of a class, then the rest.
abbrev pub one : (Char → Bool) → Option String → Option String
one p none = none
one p (some nil) = none
one p (some (chars c s)) = if p c then some s else none

abbrev pub hex_run : ℕ → Option String → Option String
hex_run zero s = s
hex_run (suc n) s = hex_run n (one is_hex s)

abbrev is_end : Option String → Bool
is_end none = false
is_end (some nil) = true
is_end (some (chars _ _)) = false

-- `isUuid`
abbrev pub is_uuid : Option String → Bool
is_uuid s =
    let a = one is_dash (hex_run 8 s) in
    let b = one is_dash (hex_run 4 a) in
    let c = one is_dash (hex_run 4 b) in let d = one is_dash (hex_run 4 c) in is_end (hex_run 12 d)
