-- ===== src/Store.antt =====
-- packages/engine/src/data/helpers: the named query helpers over the engine's SQLite tables. A table is
-- the list of its rows; text is the list of its code points, whose lexicographic order is that of
-- SQLite's BINARY collation.
pub mod Tables
pub mod Runs
pub mod AuditLog
pub mod Grants
pub mod Ledger
pub mod Sessions
pub mod Holds
pub mod Flows
mod Examples
mod TableExamples
