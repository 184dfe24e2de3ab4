-- ===== src/Gateway.antt =====
-- The gateway: messages of chat channels and HTTP clients that become runs, the owner's commands, and
-- messages that are sent at a time (services/api/internal/api/handler/gateway.go).
pub mod Phone
pub mod Channel
pub mod Policy
pub mod OwnerSender
pub mod Owner
pub mod Commands
pub mod Switch
pub mod Runs
pub mod Inbound
pub mod Calendar
pub mod Schedule
pub mod Delivery
pub mod Reminders
mod Tests
