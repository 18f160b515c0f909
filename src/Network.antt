-- ===== src/Network.antt =====
-- lib/tcpip.cc and .h: the sockets of the daemon and its clients. `writeNet` is in Msgs/Net.
pub mod Device
pub mod Receive
pub mod Packets
pub mod Messages
pub mod Client
mod Examples
