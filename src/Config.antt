-- ===== src/Config.antt =====
-- config.go: what `readConfig` accepts.
pub mod Read
pub mod Checked
pub mod Timing
mod Tests
