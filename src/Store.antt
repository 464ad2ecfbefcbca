-- ===== src/Store.antt =====
-- internal/store: the tables of the SQLite file, and the operations on them.
pub mod Tables
pub mod Sql
pub mod Batch
pub mod Projections
pub mod Append
pub mod Read
pub mod Log
pub mod Clauses
pub mod Selects
pub mod Spec
pub mod Footprint
pub mod Counters
pub mod Atomic
pub mod Inserts
pub mod Chunks
pub mod Fresh
pub mod Progress
pub mod Succeeds
pub mod Holds
pub mod Conditions
pub mod Appends
pub mod Refines
pub mod Accepts
mod Examples
