-- ===== src/Workflow.antt =====
-- The workflow engine of services/api/internal/api/handler/invoke.go: the graph, the nodes' rules
-- and the walk of its branches.
pub mod Expression
pub mod Graph
pub mod Condition
pub mod Joins
pub mod State
pub mod Delivery
pub mod Nodes
pub mod Turns
pub mod Threads
mod Tests
