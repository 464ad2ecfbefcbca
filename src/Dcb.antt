-- ===== src/Dcb.antt =====
-- internal/dcb: events and queries.
pub mod Event
pub mod Query
pub mod Compact
