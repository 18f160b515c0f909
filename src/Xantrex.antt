-- ===== src/Xantrex.antt =====
-- devices/xantrex-trace.cc and devices/xantrex-trace.h: the menu of a Xantrex inverter.
pub mod Calls
pub mod User
pub mod Setup
pub mod Table
pub mod Search
pub mod Lookup
pub mod Values
pub mod Panel
pub mod Meters
pub mod Print
mod Examples
