-- ===== src/VerificationPolicy.antt =====
-- verificationPolicy.ts: how long a check is tried. `Input` normalises and validates a policy, `Run` is
-- the environment of a run, `Classify` and `Uncertain` decide and build the outputs, `Eventual` polls,
-- and `Execute` chooses by policy and by the kind of check. The other modules prove.
pub mod Input
pub mod Run
pub mod Classify
pub mod Uncertain
pub mod Eventual
pub mod Execute
pub mod Valid
pub mod Polling
pub mod CheckWaiting
pub mod RowWaiting
pub mod Waiting
pub mod Rounds
pub mod Termination
pub mod Agreement
pub mod Classified
