-- ===== src/Resolution.antt =====
-- The second pass of a sync, crates/orbit-graph/src/sync/pass2.rs with pass2/type_member.rs, which
-- resolves the refs of the index.
pub mod Names
pub mod Raw
pub mod Members
pub mod Candidates
pub mod Rungs
pub mod Reexports
pub mod TypeMembers
pub mod Ladder
pub mod Refresh
