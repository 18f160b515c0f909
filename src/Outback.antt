-- ===== src/Outback.antt =====
-- devices/outbackpower.cc and devices/outbackpower.h: the status page that Outback MX charge
-- controllers and FX inverters send once a second, and the object that decodes it.
pub mod Device
pub mod Checksum
pub mod Page
pub mod Parse
pub mod Export
pub mod Modes
pub mod Dump
pub mod Loop
mod Examples
