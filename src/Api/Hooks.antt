-- ===== src/Api/Hooks.antt =====
-- web/src/lib/api/hooks.ts: one definition for each exported hook, by the part of the household that it
-- reads or writes. A hook's arguments, and the variables of its mutation, are the definition's.
pub mod Family
pub mod Planning
pub mod Equity
pub mod Kitchen
pub mod Chores
pub mod Points
