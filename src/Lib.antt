-- ===== src/Lib.antt =====
-- wireguard-mesh: a daemon that finds a direct LAN path to each WireGuard peer, agrees with the peer on
-- it over authenticated packets, and returns to the stable route when the path fails.
--
-- Secure models secure.go. Secure.State has the session table, the budgets and the cryptographic
-- libraries as a parameter `Crypto`: X25519 with HKDF, the envelope's AEAD, AES, and Noise. A nil
-- cipher and an error are `none`. `start`, `receive` and `seal` are in Secure.Start, Secure.Receive and
-- Secure.Seal; the entry points `Start`, `Receive` and `Seal`, which add the envelope, are
-- `start_packet`, `receive_packet` and `seal_packet` in Secure.Envelope.
--
-- Mesh models mesh.go and psk.go for one peer. Its state, the calls to the outside and the record of
-- what was sent and applied are a `State`; an operation is a program of the monad `M` of Mesh.Monad,
-- which stops at an error and keeps the state. Each answer from outside is a function of the number
-- of the call in `World`: the clock, the controller (control.go), the key file, the Rosenpass adapter,
-- the random source. Mesh.Measure has the round-trip times, Mesh.Command the commands and the tokens
-- that are given up, Mesh.Restore, Mesh.Apply, Mesh.Coordinate and Mesh.Advance the handlers of these
-- names, Mesh.Propose the end of `tick`, Mesh.Refresh the paths that
-- `refresh` drops, Mesh.Probe candidates and pongs, Mesh.Psk the reading of a
-- key and Mesh.Rekey its change in place. Mesh.Runs carries a property of the state through a program.
--
-- The event loop meets the packet layer in `send` and `receive`, which are not composed here: a
-- command is an effect `sent`, and an event of Mesh.History is a command that was authenticated. In
-- Mesh.Paths paths are found and pongs arrive between these events.
--
-- Config models the checks of `readConfig` in config.go on a decoded configuration; Config.Timing takes the
-- timing of an accepted one to the measurements of Mesh.
--
-- Control models control.go: Control.State has the journal, the device and the calls, Control.Device the
-- checks of the device, Control.Apply, Control.Rekey and Control.Restore the methods of these names, and
-- Control.Start the checks of `newController` and its recovery. An operation is a program of
-- Prelude.Program on the journal and the list of what was done; each report of the device, of a
-- configuration and of the writing of the journal is an answer by the number of its call, so that any
-- call can fail, and others can change the device at any time. A configuration that failed may have
-- been applied. A journal that could not be written may be in the file all the same, or not. In
-- Control.Reach a run has calls, and crashes between any two effects, after which the controller
-- starts with a journal that the file may hold. Control.Safety and Control.Calls carry the invariant
-- through the methods, and Control.Looked to Control.Looks what a configuration needs; Prelude.Program
-- has the rules for both. Netip has what these parts use of net/netip.
--
-- Network models network.go: Network.Send has `Send` up to the socket and the packet that `receive` makes of a
-- read, Network.Link the interfaces that are used and their addresses, and Network.Links the method
-- `Links`, whose interfaces are read outside and whose reports of `JoinGroup` are answers.
--
-- Rosenpass models the adapter of rosenpass_linux.go: Rosenpass.Link has the check of an endpoint, and
-- Rosenpass.Adapter the methods `request`, `event`, `refresh`, `stop` and `invalidate`; starting, ending and
-- cleaning up after a child, and its files, are answers. In Rosenpass.Events each call has a time that was
-- read before it is handled.
--
-- Keys and IDs are the numbers of their big-endian bytes; times and durations are nanoseconds from
-- 0 up, and a difference stops at 0; a text that is only compared is a number, "" being 0; a map is an
-- association list, and a statement for every list covers every order of iteration; a pointer to a
-- path is the number of a cell. The test of the gain in `improves` is floating point and stays a
-- parameter. Loops are structural recursion, so that no fuel is needed.
--
-- Not modelled: the files behind `save` and `newController`, whose results are answers; the sockets and the
-- system's lists of interfaces (network_linux.go, network_other.go); the reading of the adapter's
-- configuration and of its event lines; the start-up in main.go; `readPSKFile`; and of mesh.go `lan`, `ping`,
-- `announce`, the discoveries that `refresh` forgets, and the discovery loop of `tick`. A selected path that is nil while a
-- coordination stands would end the daemon; it goes back to the stable route here, and a sound route
-- has none.
pub mod Prelude
pub mod Netip
pub mod Secure
pub mod Mesh
pub mod Config
pub mod Control
pub mod Network
pub mod Rosenpass
