-- ===== src/Runtime.antt =====
-- internal/app/run.go: the start of the program and its shutdown.
pub mod Starting
pub mod Stopping
pub mod Started
pub mod Stopped
pub mod Returns
