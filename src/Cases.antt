-- ===== src/Cases.antt =====
-- Support cases (src/agent/cases/): the domain models, the handoff policy with its tables, and the
-- lifecycle of a case.
pub mod Types
pub mod Reasons
pub mod Policy
pub mod Record
mod Tests
