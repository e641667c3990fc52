-- ===== src/Control.antt =====
-- control.go: the controller changes direct peers of the WireGuard device, and keeps a journal by
-- which an interrupted change is undone.
pub mod State
pub mod Device
pub mod Effects
pub mod Restore
pub mod Apply
pub mod Rekey
pub mod Start
pub mod Crash
pub mod Safety
pub mod Calls
pub mod Reach
pub mod Recovery
pub mod Recovered
pub mod Exact
pub mod Applied
pub mod Rekeyed
pub mod Looked
pub mod Guard
pub mod Guarded
pub mod Looks
pub mod Holds
pub mod Longest
mod Tests
