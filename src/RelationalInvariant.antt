-- ===== src/RelationalInvariant.antt =====
-- relationalInvariant.ts: checks of one scalar that a statement computes over related tables.
pub mod Statements
pub mod Row
pub mod Verdict
pub mod Outcome
unfoldable pub use Statements.*
unfoldable pub use Row.*
