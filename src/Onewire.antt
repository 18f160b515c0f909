-- ===== src/Onewire.antt =====
-- devices/onewire.cc and .h: the 1 wire sensors.
pub mod Families
pub mod Device
pub mod Reading
pub mod Found
pub mod Scan
pub mod Ids
pub mod Codes
pub mod Temperatures
mod Examples
