-- ===== src/Secure.antt =====
-- secure.go: the packet layer between two daemons. A static envelope hides each packet, a Noise
-- handshake sets up a session, and a session carries numbered data packets.
pub mod State
pub mod Window
pub mod Header
pub mod Sessions
pub mod Start
pub mod Receive
pub mod Seal
pub mod Envelope
pub mod Bounds
pub mod Replay
pub mod Forgery
pub mod Nonces
pub mod Roundtrip
pub mod Rates
pub mod Serials
mod Tests
