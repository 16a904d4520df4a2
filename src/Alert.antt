-- ===== src/Alert.antt =====
-- internal/app/price_alerts.go: price alerts, from the command to the notification job.
pub mod Input
pub mod Rows
pub mod Create
pub mod Crossings
pub mod Captured
pub mod Fires
pub mod OneShot
pub mod Limit
