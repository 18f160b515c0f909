-- ===== src/Xanbus.antt =====
-- devices/xanbus.cc and devices/xanbus.h: the class `XanbusUI`.
pub mod Commands
pub mod Table
pub mod Panel
