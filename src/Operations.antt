-- ===== src/Operations.antt =====
-- Order operations (src/agent/operations/): the domain models, and the policies on operation requests
-- and on delivery issues.
pub mod Types
pub mod Lifecycle
pub mod Decisions
pub mod Policy
pub mod Delivery
pub mod Record
pub mod Repository
pub mod Service
mod Tests
