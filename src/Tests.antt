-- ===== src/Tests.antt =====
-- The runs of the program's operations on concrete incidents and leases.
mod Cluster
mod Data
mod Story
mod Lifecycles
mod Stores
mod Policing
mod Executing
mod Verifying
mod Enrolling
mod Querying
mod Recovered
mod Leasing
mod Bindings
mod Durables
mod Approving
