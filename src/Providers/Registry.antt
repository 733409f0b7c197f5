-- ===== src/Providers/Registry.antt =====
-- providers/registry.go: the switch on the API's convention that stands beside the router's own.
use claude_code_router.Common.{
  ◌≡◌, ◌↔◌, refl, Text, codes, text_eq, Bool-cases, inl, inr, trim_right_byte, if◌then◌else◌,
  Option, none, some,
}
use claude_code_router.Config.Types.{ProviderConfig}
use claude_code_router.Router.Upstream.{Provider, anthropic, openai}
use claude_code_router.Router.Chain as Chain

-- `none` is the error for a convention that is not known.
pub new_provider : (convention base_url : Text) → Option Provider
new_provider convention base_url =
    if text_eq convention (codes "anthropic")
    then some (anthropic (trim_right_byte b'/' base_url))
    else if text_eq convention (codes "openai")
    then some (openai (trim_right_byte b'/' base_url) 0)
    else none

-- The registry and the router refuse the same conventions.
pub new_provider-refuses :
    (pc : ProviderConfig)
    → (new_provider pc.convention pc.base_url ≡ none) ↔ (Chain.new_provider pc ≡ none)
unfolding new_provider Chain.new_provider
new_provider-refuses pc = elim (Bool-cases (text_eq pc.convention (codes "anthropic"))) [
  | inl a ↦ rw a (λ e. absurd (cc), λ e. absurd (cc))
  | inr a ↦ elim (Bool-cases (text_eq pc.convention (codes "openai"))) [
    | inl o ↦ rw (a, o) (λ e. absurd (cc), λ e. absurd (cc))
    | inr o ↦ rw (a, o) (λ e. refl, λ e. refl)
  ]
]
