-- ===== src/Router/Attempt/Progress.antt =====
-- When tryProvider is bound to succeed.
use claude_code_router.Common.{
  ℕ, zero, suc, ◌+◌, ◌%◌, ◌≤◌, ◌<◌, ◌≡◌, refl, Text, text_eq, text_eq_refl, false, List, [], ◌∷◌,
  Option, none, some, length, get_or, Bool-cases, inl, inr, arith, ◌∙◌, ap,
}
use native.Mathlib.Decide.{dec_lt}
use claude_code_router.Providers.Errors.{Error, is}
use claude_code_router.Router.KeyState.{is_rate_limited, start_idx}
use claude_code_router.Router.KeyState.Laws.{start_idx-lt}
use claude_code_router.Router.KeyState.Rotation.{rotation_complete}
use claude_code_router.Router.Upstream.{Provider, Upstream, World, is_retryable, has_header_timeout}
use claude_code_router.Router.Attempt.{
  Tried, Round, done, next, resume, round, rounds, try_provider,
}
use claude_code_router.Router.Attempt.Passes.{
  IsFree, Works, FailsSoftly, Goes, cooling-other, called-Goes,
}

module _ (up : Upstream) (prov : Provider) (model_id : Text) (timeout deadline : ℕ) (p : Text)
    (keys : List Text) (good : Text) (works : Works up good) (softly : FailsSoftly up) where
  round-Goes :
      (key : Text) (idx n f : ℕ) (w : World)
      → has_header_timeout prov ≡ false
      → IsFree good w.ks
      → Goes good key (round up prov model_id timeout deadline p key idx n f w)
  unfolding round is_retryable is
  round-Goes key idx n f w quick free = elim (Bool-cases (is_rate_limited w.ks key w.now)) [
    | inl y ↦
        rw (y, round)
          (
            cooling-other up prov model_id timeout deadline p keys good works softly key w free y,
            refl,
            free,
          )
    | inr y ↦
        rw (y, quick)
          (called-Goes up prov model_id timeout deadline p keys good works softly key idx n f _ w
            free)
  ]

  resume-served :
      (key : Text) (r : Round) (loop : Error → ℕ → World → Tried × World)
      → Goes good key r
      → (text_eq key good ≡ false
          → (e : Error) (f : ℕ) (v : World) → IsFree good v.ks
          → (loop e f v).0.error ≡ none)
      → (resume r loop).0.error ≡ none
  resume-served key (done t v) loop g step = g
  resume-served key (next e f v) loop g step = step g.0 e f v g.2

  rounds_served :
      (start left i j : ℕ) (last : Option Error) (f : ℕ) (w : World)
      → has_header_timeout prov ≡ false
      → IsFree good w.ks
      → i ≤ j
      → j < i + left
      → get_or keys ((start + j) % length keys) [] ≡ good
      → (rounds up prov model_id timeout deadline p keys start left i last f w).0.error ≡ none
  unfolding rounds
  rounds_served start zero i j last f w quick free a b k = absurd (omega (arith, a, b))
  rounds_served start (suc left) i j last f w quick free a b k =
      resume-served _ _ _ (round-Goes _ _ _ f w quick free) (λ n e g v q. elim (dec_lt i j) [
        | yes y ↦ rounds_served start left (suc i) j (some e) g v quick q y (omega (arith, b)) k
        | no y ↦ absurd (own i (omega (arith, a, y)) n)
      ])
    where
      own : (m : ℕ) → m ≡ j → text_eq (get_or keys ((start + m) % length keys) []) good ≡ false → ⊥
      own m q n = cc (n, q, k, text_eq_refl good)

-- Where one of a provider's keys is free of cooldowns and works, whatever the other requests and keys
-- do, and every error of the others lets the router go on, tryProvider serves the request: it reaches
-- that key before it gives up, at whatever key the rotation begins.
pub try_provider-served :
    (up : Upstream) (prov : Provider) (model_id p key good : Text) (keys : List Text)
    (i timeout : ℕ) (w : World)
    → has_header_timeout prov ≡ false
    → Works up good
    → FailsSoftly up
    → IsFree good w.ks
    → i < length (key ∷ keys)
    → get_or (key ∷ keys) i [] ≡ good
    → (try_provider up prov model_id p (key ∷ keys) timeout w).0.error ≡ none
unfolding try_provider
try_provider-served up prov model_id p key good keys i timeout w quick works softly free h k =
    let n = length (key ∷ keys) in
    let start = start_idx w.ks p n in
    let (j, below, at) = rotation_complete start n i (start_idx-lt w.ks p n (omega arith)) h in
    rounds_served up prov model_id timeout (w.now + timeout) p (key ∷ keys) good works softly start
      n 0 j none 0 w quick free (omega arith) (omega (arith, below))
      (ap (λ m. get_or (key ∷ keys) m []) at ∙ k)
