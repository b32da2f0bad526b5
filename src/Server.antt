-- ===== src/Server.antt =====
-- tvpvrsrv.c: the thread `chkrec`, which starts the recordings.
pub mod Chkrec
pub mod Shutdown
pub mod Clients
