-- ===== src/Domain.antt =====
-- The contracts of the incident-response workflow (backend/app/domain/incidents.py): the model
-- classes with their validators. A value of a class is one that pydantic accepted, so bounds on
-- single fields (`min_length`, `ge`) hold of it and are not written again.
pub mod Enums
pub mod Lifecycle
pub mod Profile
pub mod Evidence
pub mod Council
pub mod Policy
pub mod Authority
pub mod Recovery
pub mod Record
pub mod Consistent
pub mod Enrollment
pub mod Grow
