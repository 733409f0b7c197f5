-- ===== src/Tests/Client.antt =====
-- The client-facing server in front of the router of Tests/Routing.
use claude_code_router.Common.{◌≡◌, ◌⊎◌, refl, codes, text_eq, some}
use claude_code_router.Db.{Database, revoke_key}
use claude_code_router.Middleware.Auth.{extract_token}
use claude_code_router.Server.{
  Incoming, Outcome, serve, route, method_not_allowed, matched, messages,
}
use claude_code_router.Server.Guarded.{HasKey, IsTurnedAway, serve-Guarded, serve-revoke_key}
use claude_code_router.Tests.Proxied.{no_json, no_text, no_chunk}
use claude_code_router.Tests.Routing.{upstreams, keys_of, cfg, start}
use claude_code_router.Tests.Store.{header, with_key}

abbrev incoming : Incoming
incoming = record {
  method = codes "POST";
  path = codes "/v1/messages";
  header = header;
  body = some (codes "{}");
}

posted : route (codes "POST") (codes "/v1/messages") ≡ matched messages
unfolding route text_eq
posted = refl

listed_by_post : route (codes "POST") (codes "/v1/models") ≡ method_not_allowed
unfolding route text_eq
listed_by_post = refl

abbrev outcome : Database → Outcome
outcome d = serve no_json no_text no_chunk no_text upstreams keys_of cfg incoming d start

serve-Guarded_example : HasKey header with_key ⊎ IsTurnedAway with_key start (outcome with_key)
serve-Guarded_example =
    serve-Guarded no_json no_text no_chunk no_text upstreams keys_of cfg incoming with_key start

abbrev without : Database
without = revoke_key (extract_token header) with_key

serve-revoke_key_example : IsTurnedAway without start (outcome without)
serve-revoke_key_example =
    serve-revoke_key no_json no_text no_chunk no_text upstreams keys_of cfg incoming with_key start
