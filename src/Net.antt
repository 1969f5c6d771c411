-- ===== src/Net.antt =====
-- kernel/net: the network stack, from the frames up to the connections.
pub mod Ethernet
pub mod Arp
pub mod Checksum
pub mod Ipv4
pub mod Icmp
pub mod Http
pub mod Tcp
mod Tests
