-- ===== src/Notification.antt =====
-- internal/app/notification_outbox.go: the outbox of scheduled notifications and price alerts.
pub mod Jobs
pub mod Claim
pub mod Finish
pub mod Process
pub mod Outcome
pub mod Claiming
pub mod Moves
pub mod Delivery
pub mod Message
pub mod Sending
pub mod Fencing
pub mod Invariant
pub mod Create
pub mod OneScheduled
