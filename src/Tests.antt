-- ===== src/Tests.antt =====
-- The theorems at work on concrete recordings, and tests of the operations.
mod Samples
mod Dates
mod Lists
mod Maps
mod Encodings
mod Transcodings
mod Shutdowns
mod Power
mod Web
mod Clients
mod Statistics
