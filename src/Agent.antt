-- ===== src/Agent.antt =====
-- The loop of a single agent: `executeRun` of services/api/internal/api/handler/invoke.go.
pub mod State
pub mod Calls
pub mod Batch
pub mod Rounds
pub mod Completion
pub mod Retry
pub mod Parking
pub mod Answering
pub mod Replies
pub mod Gates
pub mod Endings
pub mod Honesty
mod Tests
