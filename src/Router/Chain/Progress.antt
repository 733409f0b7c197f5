-- ===== src/Router/Chain/Progress.antt =====
-- When a request is bound to be routed.
use mathlib.Core.List.{Memᴰ}
use claude_code_router.Common.{
  ℕ, zero, suc, ◌-◌, ◌<◌, ◌≤◌, ◌≡◌, refl, subst, Text, false, List, [], ◌∷◌, some, none, length,
  get_or, Option-cases, inl, inr, arith, before_byte,
}
use claude_code_router.Config.Types.{
  ProviderConfig, ModelConfig, ModelProvider, Config, provider_of,
}
use claude_code_router.Router.Upstream.{Provider, Upstream, World, has_header_timeout}
use claude_code_router.Router.Attempt.{Tried}
use claude_code_router.Router.Attempt.Passes.{
  IsFree, Works, FailsSoftly, Passes, try_provider-Passes,
}
use claude_code_router.Router.Attempt.Progress.{try_provider-served}
use claude_code_router.Router.Chain.{
  FallbackResult, Result, routed, failed, Visit, returns, goes_on, conclude, continue, settle,
  attempt, visit, visit_all, chain, fallback_chain, find_model, new_provider, header_timeout,
}

abbrev IsRouted : Result → Type 0
IsRouted (routed r) = Unit
IsRouted (failed e) = ⊥

-- A visit routes the request, or the loop goes on and the key is still free.
abbrev Advances : Text → Visit → Type 0
Advances good (returns r v) = IsRouted r
Advances good (goes_on f v) = IsFree good v.ks

abbrev Routes : Visit → Type 0
Routes (returns r v) = IsRouted r
Routes (goes_on f v) = ⊥

conclude-Advances :
    (good : Text) (mp : ModelProvider) (f : ℕ) (t : Tried) (v : World)
    → Passes good (t, v)
    → Advances good (conclude mp f (t, v))
unfolding conclude
conclude-Advances good mp f t v (inl q) = rw (q, conclude) tt
conclude-Advances good mp f t v (inr (e, q, y, free)) = rw (q, conclude, y) free

conclude-Routes :
    (mp : ModelProvider) (f : ℕ) (t : Tried) (v : World)
    → t.error ≡ none
    → Routes (conclude mp f (t, v))
unfolding conclude
conclude-Routes mp f t v q = rw (q, conclude) tt

-- The entry has a provider without a timeout of its own, and the key at `i` of that provider's keys is
-- the good one.
pub record Ready (keys_of : Text → List Text) (cfg : Config) (good : Text) (mp : ModelProvider)
    : Type 0 where
  pub config : ProviderConfig
  pub provider : Provider
  pub first : Text
  pub others : List Text
  pub i : ℕ
  pub configured : provider_of cfg mp.provider ≡ some config
  pub supported : new_provider config ≡ some provider
  pub quick : has_header_timeout provider ≡ false
  pub keys : keys_of mp.provider ≡ first ∷ others
  pub in_range : i < length (first ∷ others)
  pub there : get_or (first ∷ others) i [] ≡ good

module _ (up : Upstream) (keys_of : Text → List Text) (cfg : Config) (good : Text)
    (works : Works up good) (softly : FailsSoftly up) where
  visit-Advances :
      (mp : ModelProvider) (f : ℕ) (w : World)
      → IsFree good w.ks
      → Advances good (visit up keys_of cfg mp f w)
  unfolding visit attempt
  visit-Advances mp f w free = elim (Option-cases (provider_of cfg mp.provider)) [
    | inl e ↦ rw (e, visit) free
    | inr (pc, e) ↦ elim (Option-cases (new_provider pc)) [
      | inl n ↦ rw (e, visit, n, attempt) free
      | inr (prov, n) ↦
          rw (e, visit, n, attempt)
            (conclude-Advances good mp f _ _ (
              try_provider-Passes up prov mp.model_id mp.provider good (keys_of mp.provider)
                (header_timeout pc) w works softly free))
    ]
  ]

  visit-Routes :
      (mp : ModelProvider) (f : ℕ) (w : World)
      → Ready keys_of cfg good mp
      → IsFree good w.ks
      → Routes (visit up keys_of cfg mp f w)
  unfolding visit attempt
  visit-Routes mp f w r free =
      rw (r.configured, visit, r.supported, attempt, r.keys)
        (conclude-Routes mp f _ _ (
          try_provider-served up r.provider mp.model_id mp.provider r.first good r.others r.i
            (header_timeout r.config) w r.quick works softly free r.in_range r.there))

  continue-Routes :
      (x : Visit) (loop : ℕ → World → Visit)
      → Advances good x
      → ((f : ℕ) (v : World) → IsFree good v.ks → Routes (loop f v))
      → Routes (continue x loop)
  unfolding continue
  continue-Routes (returns r v) loop a step = a
  continue-Routes (goes_on f v) loop a step = step f v a

  first-Routes : (x : Visit) (loop : ℕ → World → Visit) → Routes x → Routes (continue x loop)
  unfolding continue
  first-Routes (returns r v) loop a = a
  first-Routes (goes_on f v) loop a = absurd a

  visit_all-Routes :
      (mp : ModelProvider) (mps : List ModelProvider) (f : ℕ) (w : World)
      → Memᴰ mp mps
      → Ready keys_of cfg good mp
      → IsFree good w.ks
      → Routes (visit_all up keys_of cfg mps f w)
  unfolding visit_all
  visit_all-Routes mp [] f w m r free = absurd (elim m [ ])
  visit_all-Routes mp (q ∷ mps) f w (Memᴰ.head e) r free =
      first-Routes _ _ (visit-Routes q f w (subst (λ x. Ready keys_of cfg good x) e r) free)
  visit_all-Routes mp (q ∷ mps) f w (Memᴰ.tail m) r free =
      continue-Routes _ _ (visit-Advances q f w free) (λ g v k. visit_all-Routes mp mps g v m r k)

  settled : (x : Visit) (rest : ℕ → World → Result × World) → Routes x → IsRouted (settle x rest).0
  unfolding settle
  settled (returns r v) rest a = a
  settled (goes_on f v) rest a = absurd a

routed_result : (r : Result) → IsRouted r → (f : FallbackResult) × (r ≡ routed f)
routed_result (routed f) i = (f, refl)
routed_result (failed e) i = absurd i

-- Where one provider of the requested model, Anthropic's kind, has a key that is free of cooldowns and
-- works, and every error of any call lets the router go on, the request is routed, whatever the
-- providers before it and the other keys answer and whatever other requests do to the cursors and to
-- the other keys.
pub fallback_chain-routed :
    (up : Upstream) (keys_of : Text → List Text) (cfg : Config) (good model : Text) (depth : ℕ)
    (m : ModelConfig) (mp : ModelProvider) (w : World)
    → Works up good
    → FailsSoftly up
    → IsFree good w.ks
    → depth ≤ 10
    → find_model (before_byte b'[' model) cfg.models ≡ some m
    → Memᴰ mp m.providers
    → Ready keys_of cfg good mp
    → (f : FallbackResult) × ((fallback_chain up keys_of cfg model depth w).0 ≡ routed f)
unfolding fallback_chain chain
fallback_chain-routed up keys_of cfg good model depth m mp w works softly free d e l r =
    routed_result _ (at (11 - depth) (omega (arith, d)))
  where
    at : (n : ℕ) → 0 < n → IsRouted (chain up keys_of cfg n model w).0
    at zero q = absurd (omega (arith, q))
    at (suc left) q =
        rw (e, chain)
          (settled up keys_of cfg good works softly _ _
            (visit_all-Routes up keys_of cfg good works softly mp m.providers 0 w l r free))
