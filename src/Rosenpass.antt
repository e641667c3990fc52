-- ===== src/Rosenpass.antt =====
-- rosenpass_linux.go and the check of its answers in rosenpass.go: the adapter that runs one Rosenpass child,
-- publishes the keys of its exchanges, and tells how long the last one is good.
pub mod State
pub mod Link
pub mod Adapter
pub mod Fresh
pub mod Requests
pub mod Events
mod Tests
