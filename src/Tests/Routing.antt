-- ===== src/Tests/Routing.antt =====
-- A router with one model and two providers: every key but "b" is rate limited.
use claude_code_router.Json.{pos}
use claude_code_router.Router.Chain.Calls.{Concluded, fallback_chain-Concluded}
use claude_code_router.Router.Chain.Output.{Wrote, fallback_chain-Wrote}
use claude_code_router.Router.Chain.Routes.{Route, fallback_chain-Route}
use claude_code_router.Router.Chain.Counts.{fallback_count_covers}
use claude_code_router.Router.Attempt.Cursor.{Served, try_provider-Served}
use claude_code_router.Router.Attempt.Skips.{AllCooling}
use claude_code_router.Router.Attempt.{Tried, failed, rounds}
use claude_code_router.Common.{
  zero, ◌%◌, ◌+◌, ◌-◌, suc, trim_right_byte, before_byte, ℕ, ◌≡◌, refl, Text, codes, text_eq, Bool,
  true, false, List, [], ◌∷◌, none, some, arith, ◌≤◌, ◌<◌, length,
}
use claude_code_router.Config.Types.{lookup, Config}
use claude_code_router.Providers.Errors.{as_rate_limit, is, rate_limit_error}
use claude_code_router.Router.KeyState.{
  new_key_state, is_rate_limited, mark_rate_limited, start_idx, advance_idx,
}
use claude_code_router.Router.Upstream.{
  after, Reply, Upstream, World, openai, IsSilent, is_retryable,
}
use claude_code_router.Router.Attempt.{try_provider}
use claude_code_router.Router.Chain.{
  new_provider, find_model, FallbackResult, routed, fallback_chain,
}

abbrev answered : Reply
answered = record {
  elapsed = 5;
  written = codes "ok";
  input_tokens = pos 3;
  output_tokens = pos 4;
  error = none;
  others = λ ks. ks;
}

abbrev limited : Reply
limited = record {
  elapsed = 7;
  written = [];
  input_tokens = pos 0;
  output_tokens = pos 0;
  error = some (rate_limit_error 9);
  others = λ ks. ks;
}

abbrev pub reply_by : Bool → Reply
reply_by true = answered
reply_by false = limited

abbrev pub upstreams : Upstream
upstreams h c = reply_by (text_eq c.api_key (codes "b"))

abbrev pub cfg : Config
cfg = record {
  server = record { client_port = 4080; admin_port = 4081; log_level = codes "info" };
  providers = some (
      (
        codes "one",
        record {
          base_url = codes "https://one/";
          convention = codes "anthropic";
          response_header_timeout_seconds = 0;
        },
      )
      ∷ (
        codes "two",
        record {
          base_url = codes "https://two/";
          convention = codes "openai";
          response_header_timeout_seconds = 3;
        },
      )
      ∷ []);
  models =
      record {
        alias = codes "opus";
        fallback_to = [];
        providers =
            record { provider = codes "one"; model_id = codes "m1" }
            ∷ record { provider = codes "two"; model_id = codes "m2" }
            ∷ [];
      }
      ∷ [];
}

abbrev pub keys_of : Text → List Text
keys_of p = codes "a" ∷ codes "b" ∷ []

abbrev pub start : World
start = record { now = 100; ks = new_key_state; calls = []; out = codes ">" }

abbrev first_result : FallbackResult
first_result = record {
  routed_model = codes "m1";
  provider = codes "one";
  input_tokens = pos 3;
  output_tokens = pos 4;
  fallback_count = 1;
}

abbrev first_world : World
first_world = (fallback_chain upstreams keys_of cfg (codes "opus[1m]") 0 start).1

router : Unit {0}
unfolding fallback_chain find_model new_provider before_byte text_eq lookup try_provider
    is_retryable after is as_rate_limit is_rate_limited mark_rate_limited start_idx advance_idx
    trim_right_byte
router = tt

first_routed :
    fallback_chain upstreams keys_of cfg (codes "opus[1m]") 0 start
    ≡ (routed first_result, first_world)
unfolding router claude_code_router.Router.Attempt.rounds new_key_state
first_routed = refl

pub upstreams-IsSilent : IsSilent upstreams
upstreams-IsSilent h c e = silent (text_eq c.api_key (codes "b"))
  where
    silent :
        (b : Bool) → (reply_by b).error ≡ some e → is_retryable e ≡ true → (reply_by b).written ≡ []
    silent true p r = absurd (none-ne-some p)
      where
        none-ne-some : none ≡ some e → ⊥
        none-ne-some q = cc
    silent false p r = refl

fallback_chain-Concluded_example :
    Concluded upstreams []
      (codes ">")
      (fallback_chain upstreams keys_of cfg (codes "opus[1m]") 0 start).0
      (fallback_chain upstreams keys_of cfg (codes "opus[1m]") 0 start).1
fallback_chain-Concluded_example =
    fallback_chain-Concluded upstreams keys_of cfg (codes "opus[1m]") 0 start

fallback_chain-Wrote_example :
    Wrote upstreams
      (codes ">")
      (fallback_chain upstreams keys_of cfg (codes "opus[1m]") 0 start).0
      (fallback_chain upstreams keys_of cfg (codes "opus[1m]") 0 start).1
fallback_chain-Wrote_example =
    fallback_chain-Wrote upstreams keys_of cfg (codes "opus[1m]") 0 start upstreams-IsSilent

fallback_chain-Route_example : Route cfg (11 - 0) (codes "opus[1m]") first_result
fallback_chain-Route_example =
    fallback_chain-Route upstreams keys_of cfg (codes "opus[1m]") 0 start first_world first_result
      first_routed

fallback_count_covers_example :
    length first_world.calls ≤ length start.calls + first_result.fallback_count + 1
fallback_count_covers_example =
    fallback_count_covers upstreams keys_of cfg (codes "opus[1m]") 0 start first_world first_result
      first_routed

abbrev two_keys : List Text
two_keys = codes "a" ∷ codes "b" ∷ []

abbrev tried_once : Tried × World
tried_once =
    try_provider upstreams (openai (codes "https://two") 3) (codes "m2") (codes "two") two_keys 60
      start

tried_fine : tried_once.0.error ≡ none
unfolding router rounds new_key_state
tried_fine = refl

try_provider-Served_example :
    (j : ℕ) × (j < 2)
    × Served
        (openai (codes "https://two") 3)
        (codes "m2")
        (codes "two")
        two_keys
        ((start_idx start.ks (codes "two") 2 + j) % 2)
        tried_once.1
try_provider-Served_example =
    try_provider-Served upstreams (openai (codes "https://two") 3) (codes "m2") (codes "two")
      (codes "a") (codes "b" ∷ []) 60 start tried_fine

abbrev cooled : World
cooled = record start { ks = mark_rate_limited new_key_state (codes "a") 50 80 }

a_cools : AllCooling (codes "a" ∷ []) cooled
unfolding router
a_cools zero h = refl
a_cools (suc i) h = absurd (omega (arith, h))
