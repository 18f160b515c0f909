-- ===== src/Daemon.antt =====
-- daemon/threads.cc: the threads of the daemon.
pub mod Client
pub mod Serve
pub mod Sensors
pub mod Rows
pub mod Stored
pub mod Owserver
mod Examples
