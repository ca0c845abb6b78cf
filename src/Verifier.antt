-- ===== src/Verifier.antt =====
-- The recovery verifier, `DeterministicRecoveryVerifier` of
-- backend/app/services/recovery_verifier.py.
pub mod Context
pub mod Assess
pub mod Verify
pub mod Consistent
pub mod Accepted
