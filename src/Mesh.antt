-- ===== src/Mesh.antt =====
-- mesh.go and psk.go: one event loop finds paths to the peers, and agrees with each peer on a
-- direct path, a replacement of it, or the return to the stable route.
pub mod State
pub mod Monad
pub mod Measure
pub mod Command
pub mod Restore
pub mod Psk
pub mod Apply
pub mod Rekey
pub mod Coordinate
pub mod Advance
pub mod Runs
pub mod Sound
pub mod KeySteps
pub mod RouteSteps
pub mod RekeySteps
pub mod PeerSteps
pub mod TimerSteps
pub mod Propose
pub mod Probe
pub mod Guards
pub mod Medians
pub mod Proofs
pub mod Activation
pub mod Refresh
pub mod History
pub mod PathKeys
pub mod PathRoutes
pub mod PathSteps
pub mod Paths
mod Tests
