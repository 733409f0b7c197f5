-- ===== src/Middleware.antt =====
-- middleware/ and the fan-out of admin/server.go: the event hub and the check of client keys.
pub mod Hub
pub mod Auth
