-- ===== src/Server.antt =====
-- cmd/ccr/main.go: the client-facing server, which puts the check of a client's key in front of the
-- three handlers of the router. Chi answers 405 to a method that it does not know, matches a path
-- exactly, runs the check on matched requests only, and answers 404 and 405 itself. RealIP and Recoverer change nothing that is modelled.
pub mod Guarded
use claude_code_router.Common.{
  ℕ, ◌/◌, Text, codes, text_eq, Bool, not, ◌||◌, if◌then◌else◌, List, [], ◌∷◌, Option, none, some,
}
use claude_code_router.Json.{Json}
use claude_code_router.Config.Types.{Config}
use claude_code_router.Db.{Database}
use claude_code_router.Middleware.Auth.{Decision, missing, invalid, served, auth}
use claude_code_router.Router.OpenAiChunks.{Emitted}
use claude_code_router.Router.Upstream.{Upstream, World}
use claude_code_router.Router.Proxy.{LogEvent, Response}
use claude_code_router.Router.Handlers.{
  Served, ModelObject, handle_messages, handle_chat_completions, handle_models,
}

pub data Endpoint : Type 0 where
  messages chat_completions models : Endpoint

pub data Route : Type 0 where
  not_found method_not_allowed : Route
  matched : Endpoint → Route

abbrev only : Text → Text → Endpoint → Route
only wanted method e = if text_eq method wanted then matched e else method_not_allowed

-- The methods that chi knows.
unfoldable pub known_method : Text → Bool
known_method m =
    text_eq m (codes "CONNECT")
    || text_eq m (codes "DELETE")
    || text_eq m (codes "GET")
    || text_eq m (codes "HEAD")
    || text_eq m (codes "OPTIONS")
    || text_eq m (codes "PATCH")
    || text_eq m (codes "POST")
    || text_eq m (codes "PUT")
    || text_eq m (codes "TRACE")

unfoldable pub route : (method path : Text) → Route
unfolding known_method
route method path =
    if not (known_method method)
    then method_not_allowed
    else if text_eq path (codes "/v1/messages")
    then only (codes "POST") method messages
    else if text_eq path (codes "/v1/chat/completions")
    then only (codes "POST") method chat_completions
    else if text_eq path (codes "/v1/models")
    then only (codes "GET") method models
    else not_found

pub record Incoming : Type 0 where
  pub method : Text
  pub path : Text
  pub header : Text → Text
  pub body : Option Text

-- What the client gets: a status with a text, the list of the models, or what a handler answers.
pub data Answer : Type 0 where
  turned_away : (status : ℕ) → Text → Answer
  listed : List ModelObject → Answer
  answered : Response → Answer

pub record Outcome : Type 0 where
  pub answer : Answer
  pub event : Option LogEvent
  pub database : Database
  pub world : World

abbrev pub turned : ℕ → Text → Database → World → Outcome
turned status t d w = record {
  answer = turned_away status t;
  event = none;
  database = d;
  world = w;
}

pub handled : Served → Outcome
handled s = record {
  answer = answered s.response;
  event = s.event;
  database = s.database;
  world = s.world;
}

module _ (decode : Text → Option Json) (encode : Json → Text) (render : Emitted → Text)
    (raw : Json → Text) (up : Upstream) (keys_of : Text → List Text) (cfg : Config) where
  pub dispatch : Endpoint → Text → Option Text → Database → World → Outcome
  unfolding handled
  dispatch messages client_key body d w =
      handled (handle_messages decode encode render raw up keys_of cfg client_key body d w)
  dispatch chat_completions client_key body d w =
      handled (handle_chat_completions decode encode render raw up keys_of cfg client_key body d w)
  dispatch models client_key body d w = record {
    answer = listed (handle_models cfg w.now);
    event = none;
    database = d;
    world = w;
  }

  pub admitted : Endpoint → Option Text → Decision × Database → World → Outcome
  unfolding dispatch
  admitted e body (missing, d) w = turned 401 (codes "{\"error\":\"missing api key\"}") d w
  admitted e body (invalid, d) w =
      turned 401 (codes "{\"error\":\"invalid or revoked api key\"}") d w
  admitted e body (served k, d) w = dispatch e k.id body d w

  pub routed : Route → Incoming → Database → World → Outcome
  unfolding admitted
  routed not_found r d w = turned 404 (codes "404 page not found") d w
  routed method_not_allowed r d w = turned 405 [] d w
  routed (matched e) r d w = admitted e r.body (auth r.header (w.now / 1_000_000_000) d) w

  pub serve : Incoming → Database → World → Outcome
  unfolding routed
  serve r d w = routed (route r.method r.path) r d w
