-- ===== src/Workflow.antt =====
-- The customer-service workflow: its routing functions, its nodes and the turns it takes.
pub mod Types
pub mod Routing
pub mod Turn
pub mod Subflow
mod Tests
