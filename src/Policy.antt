-- ===== src/Policy.antt =====
-- The deterministic proposal policy (backend/app/services/proposal_policy.py).
pub mod Outside
pub mod Patch
pub mod Checks
pub mod Evaluate
pub mod Record
pub mod Sound
pub mod Total
pub mod Exact
