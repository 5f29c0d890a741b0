-- ===== src/Api.antt =====
-- web/src/lib/api: the browser's client of the household's REST API. `Request` is the request that
-- client.ts sends, `Keys` the cache keys, `Query` what a hook gives the query library, `Matching` which
-- keys a filter matches, `Hooks` one definition for each hook of hooks.ts, `Registry` the list of all
-- of them, `Refresh` what a successful write does to the cached reads, and `Sample` instances to run.
pub mod Request
pub mod Client
pub mod Keys
pub mod Query
pub mod Matching
pub mod Hooks
pub mod Registry
pub mod Refresh
pub mod Polling
pub mod Sample
mod Tests
