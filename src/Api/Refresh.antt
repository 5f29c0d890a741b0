-- ===== src/Api/Refresh.antt =====
-- web/src/lib/api/hooks.ts against the query cache: which of the cached reads no write marks as stale.
mod Roots
use tidyboard.Prelude.{◌≡◌, false, [], ◌∷◌}
use tidyboard.Api.Request.{Platform}
use tidyboard.Api.Keys.{Begins, QueryClient}
use tidyboard.Api.Matching.{refreshes, unmatched}
use tidyboard.Api.Registry.Reads.{Read, query}
use tidyboard.Api.Registry.Writes.{Write, mutation}
use Roots.{invalidates-avoids}

-- No write refreshes a read whose key begins with "live-only": no filter that the write's success
-- invalidates matches the key.
pub live_only-stale :
    (client : QueryClient) (p : Platform) (w : Write) (r : Read)
    → Begins ("live-only" ∷ []) (query p r).key
    → refreshes client (mutation p w).invalidates (query p r).key ≡ false
live_only-stale client p w r b =
    unmatched client "live-only" (query p r).key (mutation p w).invalidates (invalidates-avoids p w)
      b
