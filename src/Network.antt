-- ===== src/Network.antt =====
-- network.go: the links of the host, the multicast groups that are joined on them, and the packets that
-- are sent and received. Sockets and the kernel's list of interfaces are outside.
pub mod State
pub mod Link
pub mod Send
pub mod Members
pub mod Links
pub mod Settled
pub mod Memberships
pub mod Sent
mod Tests
