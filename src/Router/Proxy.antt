-- ===== src/Router/Proxy.antt =====
-- router/router.go, proxy with lazyStreamWriter and publishEvent: what a client is sent for a request,
-- and the usage row and the live event that it leaves. The client's connection takes every write, and
-- json.Marshal does not fail on the documents built here; `render` is a converter's chunk in its `data:`
-- frame, which is never empty, so the lazy writer has started exactly when it has passed a byte on. The
-- chain's own time passes in the world; no time passes after it.
pub mod Replies
pub mod Kinds
use claude_code_router.Common.{
  ℕ, ◌-◌, ◌/◌, Text, codes, Bool, true, false, if◌then◌else◌, List, [], ◌∷◌, ◌++◌, Option, none,
  some,
}
use claude_code_router.Json.{ℤ, pos, Json}
use claude_code_router.Config.Types.{Config}
use claude_code_router.Db.{UsageRecord, Database, write_usage}
use claude_code_router.Providers.Errors.{as_context_exceeded}
use claude_code_router.Router.Upstream.{Upstream, World}
use claude_code_router.Router.Chain.{FallbackResult, Result, routed, failed, fallback_chain}
use claude_code_router.Router.OpenAiChunks.{Emitted}
use claude_code_router.Router.Converter.{new_converter, write}
use claude_code_router.Router.Message.Document.{sse_bytes_to_message}
use claude_code_router.Router.Context.{
  sse_event, synthesize_context_exceeded_sse, synthesize_context_exceeded_message,
}

-- middleware/logger.go
pub record LogEvent : Type 0 where
  pub ts : ℕ
  pub client_key : Text
  pub requested_model : Text
  pub routed_model : Text
  pub provider : Text
  pub input_tokens : ℤ
  pub output_tokens : ℤ
  pub latency_ms : ℕ
  pub status : ℕ
  pub fallback_count : ℕ

-- The response as the client has it: an error document, a message document, or a stream of events. A
-- handler that writes nothing sends status 200.
pub data Response : Type 0 where
  error_response : (status : ℕ) → Text → Response
  message_response : Text → Response
  stream_response : Text → Response

unfoldable pub status_of : Response → ℕ
status_of (error_response status t) = status
status_of (message_response t) = 200
status_of (stream_response t) = 200

-- The request as proxy gets it.
pub record Request : Type 0 where
  pub model : Text
  pub non_streaming : Bool
  pub openai_out : Bool
  pub client_key : Text

pub record Handled : Type 0 where
  pub response : Response
  pub event : LogEvent
  pub database : Database
  pub world : World

abbrev millisecond : ℕ
millisecond = 1_000_000

abbrev nanoseconds : ℕ
nanoseconds = 1_000_000_000

pub exhausted_text : Text
exhausted_text = codes "all providers exhausted, please try again later"

pub lost_connection : Text
lost_connection = sse_event (codes "error") (
    codes
      "{\"type\":\"error\",\"error\":{\"type\":\"api_error\",\"message\":\"upstream connection lost\"}}")

-- The event of a request that no provider has served.
unserved : Request → (start status : ℕ) → World → LogEvent
unserved r start status w = record {
  ts = w.now / nanoseconds;
  client_key = r.client_key;
  requested_model = r.model;
  routed_model = r.model;
  provider = codes "none";
  input_tokens = pos 0;
  output_tokens = pos 0;
  latency_ms = (w.now - start) / millisecond;
  status = status;
  fallback_count = 0;
}

served_event : Request → (start : ℕ) → FallbackResult → World → LogEvent
served_event r start f w = record {
  ts = w.now / nanoseconds;
  client_key = r.client_key;
  requested_model = r.model;
  routed_model = f.routed_model;
  provider = f.provider;
  input_tokens = f.input_tokens;
  output_tokens = f.output_tokens;
  latency_ms = (w.now - start) / millisecond;
  status = 200;
  fallback_count = f.fallback_count;
}

-- The row of a served request; the table gives it its id.
pub usage_row : LogEvent → UsageRecord
usage_row e = record {
  id = 0;
  ts = e.ts;
  client_key = e.client_key;
  requested_model = e.requested_model;
  routed_model = e.routed_model;
  provider = e.provider;
  input_tokens = e.input_tokens;
  output_tokens = e.output_tokens;
  latency_ms = e.latency_ms;
  status = e.status;
  fallback_count = e.fallback_count;
}

module _ (decode : Text → Option Json) (encode : Json → Text) (render : Emitted → Text) where
  -- What the lazy writer has passed on of the bytes that the providers wrote.
  abbrev collect : Emitted → Text → Text × Bool
  collect e sent = (sent ++ render e, true)

  pub passed_on : Bool → Text → Text
  passed_on false out = out
  passed_on true out = (write collect decode out new_converter []).1

  -- A failure: a context that was exceeded is told apart only for Anthropic clients, and an error
  -- document can be sent only while nothing was.
  lost : Text → Response
  unfolding exhausted_text lost_connection
  lost [] = error_response 503 exhausted_text
  lost (b ∷ sent) = stream_response (b ∷ sent ++ lost_connection)

  refuse_stream : Bool → Text → Option (ℕ × ℕ) → Response
  unfolding lost
  refuse_stream true sent limits = lost sent
  refuse_stream false sent none = lost sent
  refuse_stream false sent (some (limit, input)) =
      stream_response (sent ++ synthesize_context_exceeded_sse encode input limit)

  refuse_message : Option (ℕ × ℕ) → Response
  unfolding exhausted_text
  refuse_message none = error_response 503 exhausted_text
  refuse_message (some (limit, input)) =
      message_response (synthesize_context_exceeded_message encode input limit)

  abbrev signalled : Bool → Option (ℕ × ℕ) → ℕ
  signalled true limits = 503
  signalled false none = 503
  signalled false (some l) = 200

  abbrev pub buffered : Request → Bool
  buffered r = if r.non_streaming then (if r.openai_out then false else true) else false

  respond : Request → Result → World → Response
  unfolding refuse_stream refuse_message passed_on
  respond r (routed f) w =
      if buffered r
      then message_response (encode (sse_bytes_to_message decode w.out))
      else stream_response (passed_on r.openai_out w.out)
  respond r (failed e) w =
      if buffered r
      then refuse_message (as_context_exceeded e)
      else refuse_stream r.openai_out (passed_on r.openai_out w.out) (as_context_exceeded e)

  event_of : Request → (start : ℕ) → Result → World → LogEvent
  unfolding unserved served_event
  event_of r start (routed f) w = served_event r start f w
  event_of r start (failed e) w =
      unserved r start
        (if buffered r
          then signalled false (as_context_exceeded e)
          else signalled r.openai_out (as_context_exceeded e))
        w

  record_usage : LogEvent → Result → Database → Database
  unfolding usage_row
  record_usage e (routed f) d = write_usage (usage_row e) d
  record_usage e (failed x) d = d

  finish : Request → (start : ℕ) → Database → Result × World → Handled
  unfolding respond event_of record_usage
  finish r start d (res, w) = record {
    response = respond r res w;
    event = event_of r start res w;
    database = record_usage (event_of r start res w) res d;
    world = w;
  }

  -- The writer that the providers get is empty when a request comes in.
  pub proxy : Upstream → (Text → List Text) → Config → Request → Database → World → Handled
  unfolding finish
  proxy up keys_of cfg r d w =
      finish r w.now d (fallback_chain up keys_of cfg r.model 0 (record w { out = [] }))
