-- ===== src/Store.antt =====
-- The incident store, `InMemoryIncidentStore` of backend/app/domain/incident_fakes.py: a dict of
-- investigation records. A method takes the store and returns the new store with its result, or
-- raises and leaves the store as it was.
pub mod Access
pub mod Create
pub mod Append
pub mod Decide
pub mod Intervene
pub mod Recover
pub mod Change
pub mod Valid
pub mod Returns
pub mod Cursors
pub mod Running
pub mod Invariant
pub mod Reachable
pub mod Extends
pub mod Concluded
pub mod History
pub mod Versions
pub mod Stable
pub mod Honest
