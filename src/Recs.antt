-- ===== src/Recs.antt =====
-- recs.c: the pending recordings of each video stream, the ongoing ones, and the exclusions from a
-- repeated series. The server keeps them in arrays behind one mutex; here they are one record,
-- `State.Recs`, that each operation takes and returns.
pub mod Entry
pub mod Sorting
pub mod State
pub mod Invariant
pub mod Names
pub mod Overlap
pub mod Insert
pub mod Exclusion
pub mod Delete
pub mod Next
