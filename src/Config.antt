-- ===== src/Config.antt =====
-- config/: the configuration, its defaults, its file and the dashboard's edits.
pub mod Types
pub mod Manager
pub mod Startup
pub mod Watch
