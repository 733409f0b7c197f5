-- ===== src/Router/Chain.antt =====
-- router/router.go, fallbackChain and newProvider: the providers of a model in their order, then the
-- model that it falls back to. `keys_of` is the slice that db.GetProviderKeyValues returns.
pub mod Calls
pub mod Output
pub mod Counts
pub mod Progress
pub mod Routes
use claude_code_router.Json.{ℤ, pos}
use claude_code_router.Common.{
  ℕ, zero, suc, ◌+◌, ◌-◌, ◌*◌, Text, codes, text_eq, before_byte, trim_right_byte, true, false, ltb,
  if◌then◌else◌, List, [], ◌∷◌, ◌++◌, Option, none, some,
}
use claude_code_router.Config.Types.{
  ProviderConfig, ModelConfig, ModelProvider, Config, provider_of,
}
use claude_code_router.Providers.Errors.{Error, sentinel, plain, all_exhausted}
use claude_code_router.Router.Upstream.{Provider, anthropic, openai, Upstream, World, is_retryable}
use claude_code_router.Router.Attempt.{Tried, try_provider}

abbrev pub second : ℕ
second = 1_000_000_000

abbrev pub default_response_header_timeout : ℕ
default_response_header_timeout = 20 * second

abbrev pub header_timeout : ProviderConfig → ℕ
header_timeout pc =
    if ltb 0 pc.response_header_timeout_seconds
    then pc.response_header_timeout_seconds * second
    else default_response_header_timeout

unfoldable pub new_provider : ProviderConfig → Option Provider
new_provider pc =
    if text_eq pc.convention (codes "anthropic")
    then some (anthropic (trim_right_byte b'/' pc.base_url))
    else if text_eq pc.convention (codes "openai")
    then some (openai (trim_right_byte b'/' pc.base_url) (header_timeout pc))
    else none

pub record FallbackResult : Type 0 where
  pub routed_model : Text
  pub provider : Text
  pub input_tokens : ℤ
  pub output_tokens : ℤ
  pub fallback_count : ℕ

pub data Result : Type 0 where
  routed : FallbackResult → Result
  failed : Error → Result

-- One provider of the loop: return from fallbackChain, or go on with `fallbacks`.
pub data Visit : Type 0 where
  returns : Result → World → Visit
  goes_on : (fallbacks : ℕ) → World → Visit

unfoldable pub find_model : Text → List ModelConfig → Option ModelConfig
find_model alias [] = none
find_model alias (m ∷ ms) = if text_eq m.alias alias then some m else find_model alias ms

-- The branches on the results of tryProvider.
conclude : ModelProvider → ℕ → Tried × World → Visit
conclude mp fallbacks (t, w) = elim t.error [
  | none ↦
      returns
        (routed (record {
          routed_model = mp.model_id;
          provider = mp.provider;
          input_tokens = t.input_tokens;
          output_tokens = t.output_tokens;
          fallback_count = fallbacks + t.key_fallbacks;
        }))
        w
  | some e ↦
      if is_retryable e then goes_on (fallbacks + t.key_fallbacks + 1) w else returns (failed e) w
]

-- `fallbacks++` of a deeper level's result: its own failures and the hop.
hop : ℕ → Result × World → Result × World
hop fallbacks (routed r, w) =
    (routed (record r { fallback_count = r.fallback_count + (fallbacks + 1) }), w)
hop fallbacks (failed e, w) = (failed e, w)

continue : Visit → (ℕ → World → Visit) → Visit
continue (returns r w) loop = returns r w
continue (goes_on f w) loop = loop f w

settle : Visit → (ℕ → World → Result × World) → Result × World
settle (returns r w) rest = (r, w)
settle (goes_on f w) rest = rest f w

-- The end of fallbackChain; `deeper` is its call for the model to fall back to.
fall_back : Text → ℕ → (World → Result × World) → World → Result × World
unfolding hop
fall_back to fallbacks deeper w = elim (text_eq to []) [
  | true ↦ (failed (sentinel all_exhausted), w)
  | false ↦ hop fallbacks (deeper w)
]

module _ (up : Upstream) (keys_of : Text → List Text) (cfg : Config) where
  attempt : ModelProvider → ProviderConfig → ℕ → World → Visit
  unfolding new_provider conclude
  attempt mp pc fallbacks w = elim (new_provider pc) [
    | none ↦ goes_on fallbacks w
    | some prov ↦
        conclude mp fallbacks
          (try_provider up prov mp.model_id mp.provider (keys_of mp.provider) (header_timeout pc) w)
  ]

  visit : ModelProvider → ℕ → World → Visit
  unfolding attempt
  visit mp fallbacks w = elim (provider_of cfg mp.provider) [
    | none ↦ goes_on fallbacks w
    | some pc ↦ attempt mp pc fallbacks w
  ]

  visit_all : List ModelProvider → ℕ → World → Visit
  visit_all [] fallbacks w = goes_on fallbacks w
  visit_all (mp ∷ mps) fallbacks w = continue (visit mp fallbacks w) (visit_all mps)

  -- `left` is how many more levels the guard depth > 10 lets through.
  chain : ℕ → Text → World → Result × World
  chain zero model w = (failed (sentinel all_exhausted), w)
  chain (suc left) model w = elim (find_model (before_byte b'[' model) cfg.models) [
    | none ↦ (failed (plain (codes "unknown model alias: " ++ before_byte b'[' model)), w)
    | some m ↦
        settle (visit_all m.providers 0 w)
          (λ fallbacks w'. fall_back m.fallback_to fallbacks (chain left m.fallback_to) w')
  ]

  unfoldable pub fallback_chain : Text → (depth : ℕ) → World → Result × World
  unfolding chain settle visit_all fall_back continue visit
  fallback_chain model depth w = chain (11 - depth) model w
