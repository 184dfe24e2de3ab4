-- ===== src/Waits.antt =====
-- One wait of a run for an approval or for a session: the goroutine that waits, and the requests that
-- answer or cancel it, which interleave in any order.
pub mod Snapshot
pub mod Slot
pub mod Requests
pub mod Goroutine
pub mod Handlers
pub mod World
pub mod Counting
pub mod Exclusive
pub mod Resumes
pub mod Cancels
pub mod Newest
pub mod Callback
pub mod Accepted
pub mod Once
pub mod Answered
pub mod Payloads
pub mod Cancelled
pub mod Parked
mod Tests
