-- ===== src/Executor.antt =====
-- The Intervention Executor, `DeterministicInterventionExecutor` of
-- backend/app/services/intervention_executor.py.
pub mod Machine
pub mod Authority
pub mod Failure
pub mod Consume
pub mod Reads
pub mod Permit
pub mod Start
pub mod Steps
pub mod Outer
pub mod Whole
pub mod Safe
pub mod Leases
pub mod Released
