-- ===== src/Api/Registry.antt =====
-- web/src/lib/api/hooks.ts: all its hooks, as the constructors of two data types, so that a statement
-- about every read or every write has one place to stand.
pub mod Reads
pub mod Writes
