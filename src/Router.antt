-- ===== src/Router.antt =====
-- router/: key rotation, the fallback chain, the proxy and the conversion of event streams.
pub mod KeyState
pub mod Upstream
pub mod Attempt
pub mod Chain
pub mod BlockEvents
pub mod OpenAiChunks
pub mod Context
pub mod Converter
pub mod Message
pub mod OpenAiRequest
pub mod Inbound
pub mod OpenAiBody
pub mod Handlers
pub mod Proxy
