-- ===== src/Host.antt =====
-- src/host.ts: the host-side audit subsystem of one partition.
pub mod State
pub mod Seal
pub mod Admit
pub mod Handlers
pub mod Sessions
pub mod Checks
pub mod Frame
pub mod Marks
pub mod Sealing
pub mod Invariant
pub mod Sound
pub mod Reached
pub mod Verified
pub mod Answers
pub mod Decisions
pub mod Concluded
pub mod Conclusions
pub mod Closing
