-- ===== src/Verify.antt =====
-- src/verify.ts: the read-only auditor of a sealed ledger.
pub mod Inputs
pub mod Runs
pub mod Accounting
pub mod Step
pub mod Report
pub mod Clean
pub mod Soundness
pub mod Verdict
pub mod Anchored
pub mod Missing
pub mod Readable
pub mod Checked
pub mod Returns
pub mod Throws
