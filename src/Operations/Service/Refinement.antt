-- ===== src/Operations/Service/Refinement.antt =====
-- Each call of `OperationService` is a history of abstract writes. `Rules` has the rules for its steps
-- (src/agent/operations/service.py), `Calls` the calls.
pub mod Rules
pub mod Updates
pub mod Calls
pub mod Submissions
pub mod Creation
pub mod Requests
