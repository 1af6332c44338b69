-- ===== src/Workflow/Subflow.antt =====
-- The subflow of order operations (src/agent/nodes/operations.py) and the detection of an order
-- (src/agent/nodes/orders.py). `Nodes` and `Confirmation` have its nodes and the child graph, `Graph`,
-- `Offers` and `Mismatch` what they make together.
pub mod State
pub mod Nodes
pub mod Confirmation
pub mod Graph
pub mod Offers
pub mod Mismatch
mod Tests
