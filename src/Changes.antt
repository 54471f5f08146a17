-- ===== src/Changes.antt =====
-- The changes command, crates/orbit-graph-changes.
pub mod Filters
pub mod Types
pub mod Fallible
pub mod Files
pub mod Inventory
pub mod Bodies
pub mod Pairer
pub mod Compute
pub mod Selection
