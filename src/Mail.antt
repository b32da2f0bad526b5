-- ===== src/Mail.antt =====
-- libsmtpmail: what the mail library does to text.
pub mod Base64
pub mod Quotprinted
