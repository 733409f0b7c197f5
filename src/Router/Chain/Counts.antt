-- ===== src/Router/Chain/Counts.antt =====
-- The fallback count that a routed request reports, against the calls that it made.
use claude_code_router.Common.{
  subst, ℕ, zero, suc, ◌+◌, ◌≤◌, ◌≡◌, Text, List, [], ◌∷◌, length, Option-cases, Bool-cases, inl,
  inr, arith, before_byte, text_eq,
}
use claude_code_router.Config.Types.{ModelProvider, Config, provider_of}
use claude_code_router.Router.Upstream.{Upstream, World, is_retryable}
use claude_code_router.Router.Attempt.{Tried}
use claude_code_router.Router.Attempt.Counts.{try_provider_counted}
use claude_code_router.Router.Chain.{
  FallbackResult, Result, routed, failed, Visit, returns, goes_on, conclude, hop, continue, settle,
  fall_back, attempt, visit, visit_all, chain, fallback_chain, find_model, new_provider,
  header_timeout,
}

-- A result reached with `n` calls before the level: all calls but the last are counted.
abbrev Reported : ℕ → Result → World → Type 0
Reported n (routed r) v = length v.calls ≤ n + r.fallback_count + 1
Reported n (failed e) v = Unit

abbrev Counted : ℕ → ℕ → Visit → Type 0
Counted f n (returns (routed r) v) = length v.calls + f ≤ n + r.fallback_count + 1
Counted f n (returns (failed e) v) = Unit
Counted f n (goes_on g v) = length v.calls + f ≤ n + g

conclude-Counted :
    (mp : ModelProvider) (f n : ℕ) (t : Tried) (v : World)
    → length v.calls ≤ n + t.key_fallbacks + 1
    → Counted f n (conclude mp f (t, v))
unfolding conclude
conclude-Counted mp f n t v h = elim (Option-cases t.error) [
  | inl e ↦ rw (e, conclude) (omega arith)
  | inr (x, e) ↦ elim (Bool-cases (is_retryable x)) [
    | inl y ↦ rw (e, conclude, y) (omega arith)
    | inr y ↦ rw (e, conclude, y) tt
  ]
]

continue-Counted :
    (f n : ℕ) (r : Visit) (loop : ℕ → World → Visit)
    → Counted f n r
    → ((g : ℕ) (v : World) → Counted g (length v.calls) (loop g v))
    → Counted f n (continue r loop)
unfolding continue
continue-Counted f n (returns r v) loop c step = c
continue-Counted f n (goes_on g v) loop c step = chained (loop g v) (step g v)
  where
    chained : (r : Visit) → Counted g (length v.calls) r → Counted f n r
    chained (returns (routed r) u) d = omega arith
    chained (returns (failed e) u) d = tt
    chained (goes_on k u) d = omega arith

settle-Reported :
    (n : ℕ) (r : Visit) (rest : ℕ → World → Result × World)
    → Counted 0 n r
    → ((f : ℕ) (v : World) → length v.calls ≤ n + f → Reported n (rest f v).0 (rest f v).1)
    → Reported n (settle r rest).0 (settle r rest).1
unfolding settle
settle-Reported n (returns (routed r) v) rest c step = omega arith
settle-Reported n (returns (failed e) v) rest c step = tt
settle-Reported n (goes_on f v) rest c step = step f v (omega arith)

hop-Reported :
    (n m f : ℕ) (r : Result) (v : World)
    → m ≤ n + f
    → Reported m r v
    → Reported n (hop f (r, v)).0 (hop f (r, v)).1
unfolding hop
hop-Reported n m f (routed r) v h c = omega arith
hop-Reported n m f (failed e) v h c = tt

module _ (up : Upstream) (keys_of : Text → List Text) (cfg : Config) where
  visit-Counted :
      (mp : ModelProvider) (f : ℕ) (w : World)
      → Counted f (length w.calls) (visit up keys_of cfg mp f w)
  unfolding visit attempt
  visit-Counted mp f w = elim (Option-cases (provider_of cfg mp.provider)) [
    | inl e ↦ rw (e, visit) (omega arith)
    | inr (pc, e) ↦ elim (Option-cases (new_provider pc)) [
      | inl n ↦ rw (e, visit, n, attempt) (omega arith)
      | inr (prov, n) ↦
          rw (e, visit, n, attempt)
            (conclude-Counted mp f (length w.calls) _ _
              (try_provider_counted up prov mp.model_id mp.provider (keys_of mp.provider)
                (header_timeout pc) w).0)
    ]
  ]

  visit_all-Counted :
      (mps : List ModelProvider) (f : ℕ) (w : World)
      → Counted f (length w.calls) (visit_all up keys_of cfg mps f w)
  unfolding visit_all
  visit_all-Counted [] f w = omega arith
  visit_all-Counted (mp ∷ mps) f w =
      continue-Counted f _ _ _ (visit-Counted mp f w) (λ g v. visit_all-Counted mps g v)

  fall_back-Reported :
      (to : Text) (n f : ℕ) (deeper : World → Result × World) (w : World)
      → length w.calls ≤ n + f
      → Reported (length w.calls) (deeper w).0 (deeper w).1
      → Reported n (fall_back to f deeper w).0 (fall_back to f deeper w).1
  unfolding fall_back
  fall_back-Reported to n f deeper w h c = elim (Bool-cases (text_eq to [])) [
    | inl e ↦ rw (e, fall_back) tt
    | inr e ↦ rw (e, fall_back) (hop-Reported n (length w.calls) f _ _ h c)
  ]

  chain-Reported :
      (left : ℕ) (model : Text) (w : World)
      → let res = chain up keys_of cfg left model w in Reported (length w.calls) res.0 res.1
  unfolding chain
  chain-Reported zero model w = tt
  chain-Reported (suc left) model w =
      elim (Option-cases (find_model (before_byte b'[' model) cfg.models)) [
        | inl e ↦ rw (e, chain) tt
        | inr (m, e) ↦
            rw (e, chain)
              (settle-Reported (length w.calls) _ _ (visit_all-Counted m.providers 0 w) (λ f v h.
                fall_back-Reported m.fallback_to (length w.calls) f _ v h
                  (chain-Reported left m.fallback_to v)))
      ]

-- A routed request counts every failed call: it made at most one call more than the fallback count
-- that it reports.
pub fallback_count_covers :
    (up : Upstream) (keys_of : Text → List Text) (cfg : Config) (model : Text) (depth : ℕ)
    (w v : World) (r : FallbackResult)
    → fallback_chain up keys_of cfg model depth w ≡ (routed r, v)
    → length v.calls ≤ length w.calls + r.fallback_count + 1
unfolding fallback_chain
fallback_count_covers up keys_of cfg model depth w v r e =
    subst (λ p. Reported (length w.calls) p.0 p.1) e (chain-Reported up keys_of cfg _ model w)
