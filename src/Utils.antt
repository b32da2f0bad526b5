-- ===== src/Utils.antt =====
-- utils.c: the encodings of text for addresses, pages and formats.
pub mod Url
pub mod Html
pub mod Fits
