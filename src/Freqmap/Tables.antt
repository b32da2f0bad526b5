-- ===== src/Freqmap/Tables.antt =====
-- The frequency tables of freqmap.c, a module for each.
pub mod EuropeWest
pub mod France
pub mod EuropeEast
pub mod Ireland
pub mod Italy
pub mod Australia
pub mod Newzealand
pub mod Usbcast
pub mod Uscable
pub mod JapanBcast
pub mod JapanCable
pub mod AustraliaOptus
pub mod ChinaBcast
pub mod Southafrica
pub mod UscableIrc
pub mod UscableHrc
pub mod Argentina
