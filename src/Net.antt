-- ===== src/Net.antt =====
-- IPv4 networking, core/network/af_inet: the tuples by which sockets are found, checksums, routes
-- and the TCP connections.
pub mod Tuple
pub mod Checksum
pub mod Route
pub mod Verify
pub mod Best
pub mod Tcp
pub mod Arrive
pub mod Diagram
pub mod Handler
pub mod Open
pub mod Walk
pub mod Stuck
mod Tests
