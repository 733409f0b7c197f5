-- ===== src/Router/Chain/Output.antt =====
-- Under the contract of Provider the response holds the bytes of one call only.
use claude_code_router.Common.{
  ℕ, ◌≡◌, ◌∙◌, ◌⊎◌, inl, inr, Text, false, List, ◌∷◌, ◌++◌, none, some, ap,
}
use claude_code_router.Config.Types.{Config}
use claude_code_router.Router.Upstream.{Call, Upstream, World, is_retryable, IsSilent}
use claude_code_router.Router.Attempt.Calls.{Tries-silent}
use claude_code_router.Router.Chain.{Result, routed, failed, fallback_chain}
use claude_code_router.Router.Chain.Calls.{
  Concluded, served, refused, exhausted, fallback_chain-Concluded,
}

-- What a request that found the output `o` has left there, by its result.
abbrev pub Wrote : Upstream → Text → Result → World → Type 0
Wrote up o (routed r) v =
    (h : List Call) × (c : Call) × (v.calls ≡ c ∷ h)
    × ((up h c).error ≡ none)
    × (v.out ≡ o ++ (up h c).written)
Wrote up o (failed e) v =
    (v.out ≡ o)
    ⊎ ((h : List Call) × (c : Call) × (v.calls ≡ c ∷ h)
        × ((up h c).error ≡ some e)
        × (is_retryable e ≡ false)
        × (v.out ≡ o ++ (up h c).written))

Concluded-Wrote :
    (up : Upstream) (h₀ : List Call) (o₀ : Text) (r : Result) (v : World)
    → IsSilent up
    → Concluded up h₀ o₀ r v
    → Wrote up o₀ r v
Concluded-Wrote up h₀ o₀ (routed r) v s (served _ _ h o k c t e p q) =
    (h, c, p, e, q ∙ ap (λ x. x ++ (up h c).written) (Tries-silent up s t))
Concluded-Wrote up h₀ o₀ (failed e) v s (refused _ _ h o k c t p n q r) =
    inr (h, c, q, p, n, r ∙ ap (λ x. x ++ (up h c).written) (Tries-silent up s t))
Concluded-Wrote up h₀ o₀ (failed e) v s (exhausted _ _ k t n) = inl (Tries-silent up s t)

-- Where attempts that fail with a retryable error write nothing: a routed request has appended to the
-- writer exactly the bytes of its newest call, which succeeded; a failed one has appended nothing, or
-- the bytes of its newest call, whose error is the result and is not retryable.
pub fallback_chain-Wrote :
    (up : Upstream) (keys_of : Text → List Text) (cfg : Config) (model : Text) (depth : ℕ)
    (w : World)
    → IsSilent up
    → let res = fallback_chain up keys_of cfg model depth w in Wrote up w.out res.0 res.1
fallback_chain-Wrote up keys_of cfg model depth w s =
    Concluded-Wrote up w.calls w.out _ _ s (fallback_chain-Concluded up keys_of cfg model depth w)
