-- ===== src/Tests/Progress.antt =====
-- The router of Tests/Routing: the key "b" of the first provider works, so the request is routed.
use mathlib.Core.List.{Memᴰ}
use claude_code_router.Common.{
  sym, some_inj, ◌≡◌, refl, Text, codes, text_eq, Bool, true, false, [], ◌∷◌, some, trim_right_byte,
  before_byte, arith,
}
use claude_code_router.Config.Types.{ModelConfig, ModelProvider, lookup}
use claude_code_router.Providers.Errors.{Error, is}
use claude_code_router.Router.KeyState.{KeyState, new_key_state, is_rate_limited}
use claude_code_router.Router.Upstream.{anthropic, is_retryable}
use claude_code_router.Router.Attempt.Passes.{IsFree, Works, FailsSoftly}
use claude_code_router.Router.Chain.{
  FallbackResult, routed, fallback_chain, find_model, new_provider,
}
use claude_code_router.Router.Chain.Progress.{Ready, fallback_chain-routed}
use claude_code_router.Tests.Routing.{upstreams, reply_by, cfg, keys_of, start}

abbrev works_key : Text
works_key = codes "b"

abbrev entry : ModelProvider
entry = record { provider = codes "one"; model_id = codes "m1" }

abbrev opus : ModelConfig
opus = record {
  alias = codes "opus";
  fallback_to = [];
  providers = entry ∷ record { provider = codes "two"; model_id = codes "m2" } ∷ [];
}

keeps : (b : Bool) (ks : KeyState) → IsFree works_key ks → IsFree works_key ((reply_by b).others ks)
keeps true ks free = free
keeps false ks free = free

upstreams-Works : Works upstreams works_key
unfolding text_eq
upstreams-Works h c = (λ e. rw e refl, λ ks. keeps (text_eq c.api_key works_key) ks)

soft : (b : Bool) (e : Error) → (reply_by b).error ≡ some e → is_retryable e ≡ true
unfolding is_retryable is
soft true e q = absurd (cc)
soft false e q = rw (some_inj (sym q)) refl

upstreams-FailsSoftly : FailsSoftly upstreams
upstreams-FailsSoftly h c e q = soft (text_eq c.api_key works_key) e q

start-IsFree : IsFree works_key start.ks
unfolding is_rate_limited new_key_state
start-IsFree now = refl

found : find_model (before_byte b'[' (codes "opus[1m]")) cfg.models ≡ some opus
unfolding find_model before_byte text_eq
found = refl

ready : Ready keys_of cfg works_key entry
unfolding lookup text_eq new_provider trim_right_byte
ready = record {
  config = record {
    base_url = codes "https://one/";
    convention = codes "anthropic";
    response_header_timeout_seconds = 0;
  };
  provider = anthropic (codes "https://one");
  first = codes "a";
  others = codes "b" ∷ [];
  i = 1;
  configured = refl;
  supported = refl;
  quick = refl;
  keys = refl;
  in_range = omega arith;
  there = refl;
}

fallback_chain-routed_example :
    (f : FallbackResult) × ((fallback_chain upstreams keys_of cfg (codes "opus[1m]") 0 start).0
      ≡ routed f)
fallback_chain-routed_example =
    fallback_chain-routed upstreams keys_of cfg works_key (codes "opus[1m]") 0 opus entry start
      upstreams-Works upstreams-FailsSoftly start-IsFree (omega arith) found (Memᴰ.head refl) ready
