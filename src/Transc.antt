-- ===== src/Transc.antt =====
-- `transc.c`: the transcodings that run, wait or are queued as lists of files.
pub mod Slots
pub mod Ongoing
pub mod Threads
pub mod Filelists
pub mod Waiting
