-- ===== src/Menu.antt =====
-- lib/menuitem.cc and lib/menuitem.h: the items of the inverter's menu.
pub mod Item
pub mod Display
pub mod Columns
mod Examples
