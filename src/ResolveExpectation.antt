-- ===== src/ResolveExpectation.antt =====
-- resolveExpectation.ts: what a tool's registry entry expects for the parameters of a call.
pub mod Outcome
pub mod Specs
pub mod Rows
pub mod Relational
pub mod Witness
pub mod Request
pub mod Template
pub mod Columns
pub mod Safe
pub mod SafeRelational
pub mod SafeCheck
pub mod RowOf
pub mod Complete
pub mod Tools
