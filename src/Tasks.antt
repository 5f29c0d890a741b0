-- ===== src/Tasks.antt =====
-- web/src/lib/unified-tasks.ts: the household's one task feed. `unify_tasks` projects to-dos,
-- routines, chores, rewards and redemptions into rows and sorts these by urgency.
pub mod Shape
pub mod Rows
pub mod Unify
pub mod Order
pub mod Feed
pub mod Owners
pub mod Groups
mod Tests
