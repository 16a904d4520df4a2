-- ===== src/Handlers.antt =====
-- internal/app/telegram_handlers.go and internal/app/price_alert_handlers.go: what an update changes in
-- the database and which replies and answers it collects, with the keyboards of internal/telegram.
pub mod Texts
pub mod Subscribers
pub mod Replies
pub mod Alerts
pub mod Updates
pub mod Quiet
pub mod Buttons
