-- ===== src/Reply.antt =====
-- internal/app/telegram_reply_outbox.go: the outbox of replies to the updates of a chat.
pub mod Jobs
pub mod Finish
pub mod Process
pub mod Claiming
pub mod Moves
pub mod Order
pub mod Delivery
pub mod Message
pub mod Sending
