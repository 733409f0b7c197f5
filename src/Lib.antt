-- ===== src/Lib.antt =====
-- Claude Code Router: a proxy that takes Anthropic and OpenAI requests from local clients, routes a
-- model alias to the first provider that answers, and converts between the two stream formats.
--
-- The parts and how they interact. A client's request passes middleware/auth.go, is handed to
-- router/router.go, whose fallbackChain walks the providers of the alias and the models it falls
-- back to, and whose tryProvider rotates through a provider's keys (router/fallback.go keeps the
-- cooldowns and cursors, db/usage.go the keys). A provider (providers/*.go) streams Anthropic
-- events to the writer that the router hands it; for the OpenAI surface that writer is the
-- converter of router/convert.go. The configuration (config/*.go) is edited by the dashboard and
-- reloaded from its file, and every finished request is published on the hub of
-- middleware/logger.go.
--
-- The files. Common holds the shared names, Boolean tests on the native naturals, list lemmas and
-- Go strings as lists of bytes. Json and Json/Decode model encoding/json on document trees; Events
-- and Events/Lines the framing of server-sent events. Config/Types, Config/Manager, Config/Watch
-- and Config/Startup model config/*.go. Db models db/usage.go and the schema of db/db.go: a table
-- is a list of rows; Db/Summary models UsageSummary. Middleware/Auth models middleware/auth.go and
-- Middleware/Hub models the Broadcaster of middleware/logger.go and the config subscribers of
-- admin/server.go. Admin/Loopback models loopbackOnly of admin/server.go and Admin/Api the handlers
-- of admin/api.go that change state, Admin/Server the routes of admin/server.go, Admin/Views the
-- handlers that only show something, Admin/Trial handleTest and Admin/RawConfig the raw
-- configuration. Providers/Errors models the errors of providers/base.go, Providers/Registry
-- providers/registry.go, Providers/Http what a provider sees of an HTTP exchange, Providers/Request
-- the requests of providers/base.go, Providers/Anthropic the Stream of providers/anthropic.go and
-- its child Patch patchAnthropicBody, and, of providers/openai.go, Providers/Outbound
-- convertToOpenAI, Providers/Schema the sanitising of tool schemas over the Go maps of Json/Dict,
-- Providers/Think the thinkFilter, Providers/OpenAi the stream state machine with the event
-- protocol that it keeps (Protocol), and Providers/OpenAi/Client the read loop and statuses.
-- Router/KeyState models router/fallback.go, Router/Upstream what the router sees of providers,
-- clock and writer, Router/Attempt tryProvider, Router/Chain fallbackChain and newProvider,
-- Router/Converter the openAIStreamConverter of router/convert.go, Router/Message and
-- Router/Context the two halves of router/sse.go, Router/BlockEvents the structs that the two
-- convertors of events decode, Router/OpenAiChunks the chunks, Router/OpenAiRequest, Router/Inbound
-- and Router/OpenAiBody the conversions of requests in router/convert.go, Router/Proxy the proxy of
-- router/router.go, which puts the chain, the converter, the message and the usage row together,
-- and Router/Handlers the handlers in front of it. Server models the client-facing routes of
-- cmd/ccr/main.go, which put the check of the key in front of the handlers. The children of a
-- component hold its theorems, Tests the runs at concrete inputs.
--
-- Conventions. A definition has the name of the Go function in snake case. A Go map is a function
-- into Option or an association list; what is done under a mutex is one step. A provider's keys are
-- taken not to change while one request is served, though tryProvider reads them anew at every visit
-- of the provider: the chain has them as one function. Times and durations are
-- nanoseconds in the native naturals and do not overflow; the clock never goes back. A panic is the
-- result none. Upstreams, the decoding of bytes into documents, TOML, LIKE and writers are
-- arguments.
--
-- Bounds and fuel. fallbackChain is recursion on the 11 levels that its guard depth > 10 lets
-- through, so it is total. The loop of thinkFilter.process has one more than the length of its
-- buffer as fuel, and every round but the last takes a tag off the buffer; strings.TrimSpace cuts
-- at least one byte a round.
--
-- Not modelled, as input and output: logging, building HTTP requests and transports, opening the
-- database, the dashboard's event streams, static files, restart and self-update, and the rest of
-- the start-up in cmd/ccr.
pub mod Admin
pub mod Common
pub mod Config
pub mod Db
pub mod Events
pub mod Json
pub mod Middleware
pub mod Providers
pub mod Router
pub mod Server
pub mod Tests
