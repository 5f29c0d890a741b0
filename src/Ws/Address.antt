-- ===== src/Ws/Address.antt =====
-- web/src/lib/ws/ws-provider.tsx, `buildWsUrl`: the address of the socket.
use Prim.Native.Char.{Char, code}
use Prim.Native.String.{[] as nil, ◌∷◌ as chars}
use tidyboard.Prelude.{Option, none, some, String, truthy, not, ◌+++◌, if◌then◌else◌, ◌==◌}
use tidyboard.Api.Request.{Platform}

abbrev slash_onto : Char → String → String
slash_onto c nil = if code c == 47 then nil else chars c nil
slash_onto c (chars d s) = chars c (chars d s)

-- `.replace(/\/+$/, "")`
abbrev pub strip_slashes : String → String
strip_slashes nil = nil
strip_slashes (chars c s) = slash_onto c (strip_slashes s)

abbrev pub rest_after : String → String → Option String
rest_after nil s = some s
rest_after (chars c p) nil = none
rest_after (chars c p) (chars d s) = if code c == code d then rest_after p s else none

-- `.replace(/^prefix/, by)`
abbrev pub replace_start : String → String → String → String
replace_start prefix by s = put (rest_after prefix s)
  where
    put : Option String → String
    put none = s
    put (some rest) = by +++ rest

-- In a browser; none is null.
abbrev pub build_ws_url : Platform → String → String → Option String
build_ws_url p api_url token =
    if not (truthy api_url)
    then none
    else some (
        replace_start "http://" "ws://" (replace_start "https://" "wss://" (strip_slashes api_url))
        +++ "/v1/ws?token="
        +++ p.encode_uri_component token)
