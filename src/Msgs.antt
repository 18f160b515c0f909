-- ===== src/Msgs.antt =====
-- lib/msgs.cc, lib/msgs.h and what they use of lib/xml.h and lib/tcpip.cc: the messages between the
-- daemon and its clients.
pub mod State
pub mod Create
pub mod Net
pub mod Methods
pub mod Process
pub mod Trees
pub mod Dialogue
pub mod Reports
mod Examples
