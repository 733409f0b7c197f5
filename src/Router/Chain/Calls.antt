-- ===== src/Router/Chain/Calls.antt =====
-- Which calls fallbackChain makes, and what they leave on the writer.
use claude_code_router.Common.{
  ◌∙◌, ℕ, zero, suc, ◌≡◌, refl, Text, text_eq, false, List, [], ◌∷◌, ◌++◌, none, some, Option-cases,
  Bool-cases, inl, inr, before_byte,
}
use claude_code_router.Config.Types.{ModelProvider, Config, provider_of}
use claude_code_router.Providers.Errors.{is, Error, sentinel, plain, all_exhausted}
use claude_code_router.Router.Upstream.{Call, Upstream, World, is_retryable}
use claude_code_router.Router.Attempt.{Tried}
use claude_code_router.Router.Attempt.Calls.{
  Tries, none_yet, Settled, decided, spent, try_provider-Settled,
}
use claude_code_router.Router.Chain.{
  Result, routed, failed, Visit, returns, goes_on, conclude, hop, continue, settle, fall_back,
  attempt, visit, visit_all, chain, fallback_chain, find_model, new_provider, header_timeout,
}

-- How a request that began with the calls `h₀` and the output `o₀` has ended.
pub data Concluded (up : Upstream) (h₀ : List Call) (o₀ : Text) : Result → World → Type 0 where
  -- The newest call succeeded.
  served :
      (r : _) (v : World) (h : List Call) (o : Text) (k : ℕ) (c : Call)
      → Tries up h₀ o₀ h o k
      → (up h c).error ≡ none
      → v.calls ≡ c ∷ h
      → v.out ≡ o ++ (up h c).written
      → Concluded up h₀ o₀ (routed r) v
  -- The newest call failed with an error that is not retryable, and that error is the result.
  refused :
      (e : Error) (v : World) (h : List Call) (o : Text) (k : ℕ) (c : Call)
      → Tries up h₀ o₀ h o k
      → (up h c).error ≡ some e
      → is_retryable e ≡ false
      → v.calls ≡ c ∷ h
      → v.out ≡ o ++ (up h c).written
      → Concluded up h₀ o₀ (failed e) v
  -- Every call failed with a retryable error, and no provider or model was left.
  exhausted :
      (e : Error) (v : World) (k : ℕ)
      → Tries up h₀ o₀ v.calls v.out k
      → is_retryable e ≡ false
      → Concluded up h₀ o₀ (failed e) v

data Visits (up : Upstream) (h₀ : List Call) (o₀ : Text) : Visit → Type 0 where
  returning : {r : Result} {v : World} → Concluded up h₀ o₀ r v → Visits up h₀ o₀ (returns r v)
  going_on :
      {f : ℕ} {v : World} (k : ℕ) → Tries up h₀ o₀ v.calls v.out k → Visits up h₀ o₀ (goes_on f v)

module _ (up : Upstream) (h₀ : List Call) (o₀ : Text) where
  conclude-Visits :
      (mp : ModelProvider) (f : ℕ) (t : Tried) (v : World)
      → Settled up h₀ o₀ t.error v
      → Visits up h₀ o₀ (conclude mp f (t, v))
  unfolding conclude
  conclude-Visits mp f t v (decided h o k c ts e p q r) = elim (Option-cases t.error) [
    | inl n ↦ rw (n, conclude) (returning (served _ v h o k c ts (e ∙ n) q r))
    | inr (x, n) ↦ rw (n, conclude, p x n) (returning (refused x v h o k c ts (e ∙ n) (p x n) q r))
  ]
  conclude-Visits mp f t v (spent k x ts e p) = rw (e, conclude, p) (going_on k ts)

  continue-Visits :
      (r : Visit) (loop : ℕ → World → Visit)
      → Visits up h₀ o₀ r
      → ((f k : ℕ) (v : World) → Tries up h₀ o₀ v.calls v.out k → Visits up h₀ o₀ (loop f v))
      → Visits up h₀ o₀ (continue r loop)
  unfolding continue
  continue-Visits (returns r v) loop (returning c) step = returning c
  continue-Visits (goes_on f v) loop (going_on k t) step = step f k v t

  settle-Concluded :
      (r : Visit) (rest : ℕ → World → Result × World)
      → Visits up h₀ o₀ r
      → ((f k : ℕ) (v : World)
          → Tries up h₀ o₀ v.calls v.out k
          → Concluded up h₀ o₀ (rest f v).0 (rest f v).1)
      → Concluded up h₀ o₀ (settle r rest).0 (settle r rest).1
  unfolding settle
  settle-Concluded (returns r v) rest (returning c) step = c
  settle-Concluded (goes_on f v) rest (going_on k t) step = step f k v t

  hop-Concluded :
      (f : ℕ) (r : Result) (v : World)
      → Concluded up h₀ o₀ r v
      → Concluded up h₀ o₀ (hop f (r, v)).0 (hop f (r, v)).1
  unfolding hop
  hop-Concluded f (routed r) v (served _ _ h o k c t e p q) = served _ v h o k c t e p q
  hop-Concluded f (failed e) v c = c

  module _ (keys_of : Text → List Text) (cfg : Config) where
    visit-Visits :
        (mp : ModelProvider) (f k : ℕ) (w : World)
        → Tries up h₀ o₀ w.calls w.out k
        → Visits up h₀ o₀ (visit up keys_of cfg mp f w)
    unfolding visit attempt
    visit-Visits mp f k w t = elim (Option-cases (provider_of cfg mp.provider)) [
      | inl e ↦ rw (e, visit) (going_on k t)
      | inr (pc, e) ↦ elim (Option-cases (new_provider pc)) [
        | inl n ↦ rw (e, visit, n, attempt) (going_on k t)
        | inr (prov, n) ↦
            rw (e, visit, n, attempt)
              (conclude-Visits mp f _ _ (
                try_provider-Settled up prov mp.model_id mp.provider (keys_of mp.provider)
                  (header_timeout pc) h₀ o₀ k w t))
      ]
    ]

    visit_all-Visits :
        (mps : List ModelProvider) (f k : ℕ) (w : World)
        → Tries up h₀ o₀ w.calls w.out k
        → Visits up h₀ o₀ (visit_all up keys_of cfg mps f w)
    unfolding visit_all
    visit_all-Visits [] f k w t = going_on k t
    visit_all-Visits (mp ∷ mps) f k w t =
        continue-Visits _ _ (visit-Visits mp f k w t)
          (λ f' k' v t'. visit_all-Visits mps f' k' v t')

    fall_back-Concluded :
        (to : Text) (f k : ℕ) (deeper : World → Result × World) (w : World)
        → Tries up h₀ o₀ w.calls w.out k
        → Concluded up h₀ o₀ (deeper w).0 (deeper w).1
        → let res = fall_back to f deeper w in Concluded up h₀ o₀ res.0 res.1
    unfolding fall_back is_retryable is
    fall_back-Concluded to f k deeper w t c = elim (Bool-cases (text_eq to [])) [
      | inl e ↦ rw (e, fall_back) (exhausted (sentinel all_exhausted) w k t refl)
      | inr e ↦ rw (e, fall_back) (hop-Concluded f _ _ c)
    ]

    chain-Concluded :
        (left : ℕ) (model : Text) (k : ℕ) (w : World)
        → Tries up h₀ o₀ w.calls w.out k
        → let res = chain up keys_of cfg left model w in Concluded up h₀ o₀ res.0 res.1
    unfolding chain is_retryable is
    chain-Concluded zero model k w t = exhausted (sentinel all_exhausted) w k t refl
    chain-Concluded (suc left) model k w t =
        elim (Option-cases (find_model (before_byte b'[' model) cfg.models)) [
          | inl e ↦ rw (e, chain) (exhausted (plain _) w k t refl)
          | inr (m, e) ↦
              rw (e, chain)
                (settle-Concluded _ _ (visit_all-Visits m.providers 0 k w t) (λ f k' v t'.
                  fall_back-Concluded m.fallback_to f k' _ v t'
                    (chain-Concluded left m.fallback_to k' v t')))
        ]

-- Whatever the upstreams answer, every call of a request but its newest failed with a retryable
-- error; the request is routed only if the newest call succeeded; an error that is not retryable is
-- returned at once, with no further call; and the bytes on the writer are those that the calls wrote.
pub fallback_chain-Concluded :
    (up : Upstream) (keys_of : Text → List Text) (cfg : Config) (model : Text) (depth : ℕ)
    (w : World)
    → let res = fallback_chain up keys_of cfg model depth w in
      Concluded up w.calls w.out res.0 res.1
unfolding fallback_chain
fallback_chain-Concluded up keys_of cfg model depth w =
    chain-Concluded up w.calls w.out keys_of cfg _ model 0 w none_yet
