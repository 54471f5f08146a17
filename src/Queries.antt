-- ===== src/Queries.antt =====
-- Other queries of crates/orbit-graph/src/query: the call tree of a command (trace.rs), the calls
-- out of a symbol (callees.rs), the imports of a file or a directory (deps.rs), and the
-- implementors of a trait (implementors.rs).

pub mod Callees
pub mod Trace
pub mod Deps
pub mod Implementors
