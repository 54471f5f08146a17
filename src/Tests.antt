-- ===== src/Tests.antt =====
-- The theorems at concrete inputs, and runs of the definitions.
mod Selectors
mod ImpactRuns
mod Refs
mod ChangeFilters
mod ChangedSymbols
pub mod OtherQueries
