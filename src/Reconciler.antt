-- ===== src/Reconciler.antt =====
-- reconciler.ts and the row query of sqlConnector.ts: one row check, and one check that no row
-- exists. A database answers a statement with rows or an error; it is a parameter.
pub mod Rows
pub mod Absent
pub mod Outcome
pub mod Scalars
pub mod Counting
pub mod Absence
pub mod Verified
unfoldable pub use Rows.*
unfoldable pub use Absent.*
