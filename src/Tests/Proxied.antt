-- ===== src/Tests/Proxied.antt =====
-- A streaming client in front of the router of Tests/Routing.
use claude_code_router.Common.{Option, ◌⊎◌, ◌↔◌}
use claude_code_router.Json.{Json}
use claude_code_router.Db.{empty_database}
use claude_code_router.Router.OpenAiChunks.{Emitted}
use claude_code_router.Router.Proxy.{Request, Handled, proxy, status_of, passed_on}
use claude_code_router.Router.Proxy.Replies.{
  Delivered, Withheld, proxy_streams_one_call, proxy_status_iff,
}
use claude_code_router.Common.{◌≡◌, refl, Text, codes, true, false, [], none}
use claude_code_router.Tests.Routing.{upstreams, upstreams-IsSilent, keys_of, cfg, start}

abbrev asked : Request
asked = record {
  model = codes "opus";
  non_streaming = false;
  openai_out = false;
  client_key = codes "k1";
}

abbrev pub no_json : Text → Option Json
no_json s = none

abbrev pub no_text : Json → Text
no_text v = []

abbrev pub no_chunk : Emitted → Text
no_chunk e = []

abbrev answered_request : Handled
answered_request = proxy no_json no_text no_chunk upstreams keys_of cfg asked empty_database start

proxy_streams_one_call_example :
    Delivered upstreams empty_database answered_request
    ⊎ Withheld no_text upstreams empty_database answered_request
proxy_streams_one_call_example =
    proxy_streams_one_call no_json no_text no_chunk upstreams keys_of cfg asked empty_database start
      upstreams-IsSilent refl refl

proxy_status_iff_example : (status_of answered_request.response ≡ 503) ↔ (
    (answered_request.event.status ≡ 503)
    × ((false ≡ true) ⊎ (passed_on no_json no_text no_chunk false answered_request.world.out ≡ [])))
proxy_status_iff_example =
    proxy_status_iff no_json no_text no_chunk upstreams keys_of cfg asked empty_database start
