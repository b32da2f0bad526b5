-- ===== src/Web.antt =====
-- httpreq.c and tvwebcmd.c: what the server makes of a request of a browser.
pub mod Cookies
pub mod Get
pub mod Commands
pub mod Access
pub mod Headers
