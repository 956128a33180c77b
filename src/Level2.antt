-- ===== src/Level2.antt =====
-- src/l2: keys, signing and verification of Level 2, and the reconciliation of egress.
pub mod Keys
pub mod Bound
pub mod Jwk
pub mod Signing
pub mod Checking
pub mod Reconcile
mod Tests
