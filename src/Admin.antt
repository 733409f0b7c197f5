-- ===== src/Admin.antt =====
-- admin/: the guard of the dashboard's server and its handlers.
pub mod Loopback
pub mod Api
pub mod Views
pub mod Server
pub mod Trial
pub mod RawConfig
