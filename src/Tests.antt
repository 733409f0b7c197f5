-- ===== src/Tests.antt =====
-- Runs of the model at concrete inputs.
pub mod Routing
pub mod Progress
pub mod Proxied
pub mod Streams
pub mod Store
pub mod Client
pub mod Summary
pub mod Dashboard
pub mod Messages
pub mod Upstreams
pub mod Forwarded
pub mod Schemas
pub mod Requests
