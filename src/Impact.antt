-- ===== src/Impact.antt =====
-- crates/orbit-graph/src/query/impact.rs: the bounded search for what a change of a symbol touches.
-- `Types` has its records, `Neighbors` the queries for one symbol, `Resolve` those that find a
-- symbol, `Bfs` the loop, and `Run` puts them together.
pub mod Types
pub mod Neighbors
pub mod Resolve
pub mod Bfs
pub mod Run
