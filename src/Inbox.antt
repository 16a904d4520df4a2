-- ===== src/Inbox.antt =====
-- internal/app/telegram_inbox.go: the inbox of Telegram updates.
pub mod Partition
pub mod Jobs
pub mod Save
pub mod Claim
pub mod Finish
pub mod Saving
pub mod Claiming
pub mod Process
pub mod Completing
pub mod GivingUp
pub mod Atomicity
pub mod Answering
