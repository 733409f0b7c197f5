-- ===== src/Providers.antt =====
-- providers/: the errors, the requests, the two upstream conventions and what they are made of.
pub mod Anthropic
pub mod Errors
pub mod Http
pub mod Think
pub mod OpenAi
pub mod Schema
pub mod Registry
pub mod Request
pub mod Outbound
