-- ===== src/Router/Handlers.antt =====
-- router/router.go, HandleMessages, HandleChatCompletions and HandleModels. A body that cannot be read
-- is `none`. What the key, the beta header and the request's content do lies in the providers, whose
-- answers are the upstream's.
pub mod Answers
use claude_code_router.Common.{
  ℕ, Text, codes, Bool, true, false, List, Option, none, some, map, ◌/◌,
}
use claude_code_router.Json.{Json}
use claude_code_router.Config.Types.{Config}
use claude_code_router.Db.{Database}
use claude_code_router.Providers.Request.{AnthropicRequest}
use claude_code_router.Router.OpenAiChunks.{Emitted}
use claude_code_router.Router.Upstream.{Upstream, World}
use claude_code_router.Router.Inbound.{openai_to_anthropic, anthropic_body_to_request}
use claude_code_router.Router.Proxy.{Request, Handled, LogEvent, Response, error_response, proxy}

-- What a handler leaves: the event is missing where none is published.
pub record Served : Type 0 where
  pub response : Response
  pub event : Option LogEvent
  pub database : Database
  pub world : World

pub bad_request : Text → Database → World → Served
bad_request t d w = record {
  response = error_response 400 t;
  event = none;
  database = d;
  world = w;
}

pub proxied : Handled → Served
proxied h = record {
  response = h.response;
  event = some h.event;
  database = h.database;
  world = h.world;
}

abbrev pub proxy_request : Bool → Text → AnthropicRequest → Request
proxy_request openai_out client_key req = record {
  model = req.model;
  non_streaming = req.non_streaming;
  openai_out = openai_out;
  client_key = client_key;
}

unread : Text
unread = codes "failed to read request body"

-- jsonError(w, err.Error(), …); the text of the decoder's error is not modelled.
undecoded : Text
undecoded = codes "convert: unmarshal request"

module _ (decode : Text → Option Json) (encode : Json → Text) (render : Emitted → Text)
    (raw : Json → Text) (up : Upstream) (keys_of : Text → List Text) (cfg : Config) where
  abbrev forward : Bool → Text → AnthropicRequest → Database → World → Served
  forward openai_out client_key req d w =
      proxied
        (proxy decode encode render up keys_of cfg (proxy_request openai_out client_key req) d w)

  abbrev converted : Bool → Text → Option AnthropicRequest → Database → World → Served
  converted openai_out client_key none d w = bad_request undecoded d w
  converted openai_out client_key (some req) d w = forward openai_out client_key req d w

  pub handle_messages : Text → Option Text → Database → World → Served
  unfolding bad_request unread undecoded
  handle_messages client_key none d w = bad_request unread d w
  handle_messages client_key (some body) d w =
      converted false client_key (anthropic_body_to_request decode raw body) d w

  pub handle_chat_completions : Text → Option Text → Database → World → Served
  unfolding bad_request unread undecoded
  handle_chat_completions client_key none d w = bad_request unread d w
  handle_chat_completions client_key (some body) d w =
      converted true client_key (openai_to_anthropic decode body) d w

pub record ModelObject : Type 0 where
  pub id : Text
  pub created : ℕ

-- The document of HandleModels, whose `object` and `owned_by` are constant.
pub handle_models : Config → (now : ℕ) → List ModelObject
handle_models cfg now = map (λ m. record { id = m.alias; created = now / 1_000_000_000 }) cfg.models
