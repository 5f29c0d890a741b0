-- ===== src/Ws.antt =====
-- web/src/lib/ws/ws-provider.tsx: the household's live connection. `Invalidation` is what a frame makes
-- stale, `Connection` the socket, the retry timer and the backoff as a state machine, and `Invariant`
-- what holds in each of its states, `Backoff` the delays of its retries. `Address` is where
-- it connects to.
pub mod Invalidation
pub mod Connection
pub mod Invariant
pub mod Backoff
pub mod Address
mod Tests
