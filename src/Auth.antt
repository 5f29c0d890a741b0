-- ===== src/Auth.antt =====
-- web/src/lib/auth/auth-store.tsx: the signed-in session. `Session` is its state and what the setters
-- do, `Provider` the operations and the answers of the server as events, `Invariant` what holds after
-- every sequence of them, `Gates` the components that show a page only to some sessions, and `Orders`
-- what particular orders of operations lead to. `Routes` is the gate of all pages.
pub mod Session
pub mod Provider
pub mod Invariant
pub mod Gates
pub mod Orders
pub mod Routes
mod Tests
