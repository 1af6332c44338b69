-- ===== src/Operations/Service.antt =====
-- `OperationService` of src/agent/operations/service.py: what it calls, the operations on the record,
-- and what they guarantee.
pub mod World
pub mod Pending
pub mod Changes
pub mod CaseLink
pub mod Submission
pub mod Requests
pub mod History
pub mod Elsewhere
pub mod Refinement
pub mod Review
pub mod Replay
pub mod Outbox
pub mod Samples
mod Tests
