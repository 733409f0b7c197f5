-- ===== src/Router/Attempt/Counts.antt =====
-- How many calls tryProvider makes and how it counts the failures.
use claude_code_router.Common.{
  ℕ, zero, suc, ◌+◌, ◌≤◌, ◌≡◌, Text, leb, List, [], ◌∷◌, Option, none, some, length, Option-cases,
  Bool-cases, inl, inr, arith,
}
use claude_code_router.Providers.Errors.{is, rate_limit, Error}
use claude_code_router.Router.Upstream.{
  Provider, Call, Upstream, World, is_retryable, after, has_header_timeout,
}
use claude_code_router.Router.KeyState.{start_idx, is_rate_limited}
use claude_code_router.Router.Attempt.{
  Tried, Round, done, next, resume, failure, outcome, round, rounds, try_provider, stream, call,
  keyless,
}

-- A round that began with `f` failures and `n` calls: it counts at most one failure more, and makes
-- no call that is not counted, but for the one that ends the loop.
abbrev Counted : ℕ → ℕ → Round → Type 0
Counted f n (done t v) =
    (length v.calls + f ≤ n + t.key_fallbacks + 1) × (f ≤ t.key_fallbacks) × (t.key_fallbacks ≤ f)
Counted f n (next e g v) = (length v.calls + f ≤ n + g) × (f ≤ g) × (g ≤ f + 1)

-- The same of the whole loop, of which `left` rounds are to come.
abbrev pub CountedIn : (n f left : ℕ) → Tried × World → Type 0
CountedIn n f left p =
    (length p.1.calls + f ≤ n + p.0.key_fallbacks + 1)
    × (f ≤ p.0.key_fallbacks)
    × (p.0.key_fallbacks ≤ f + left)

resume-CountedIn :
    (n f left : ℕ) (r : Round) (loop : Error → ℕ → World → Tried × World)
    → Counted f n r
    → ((e : Error) (g : ℕ) (v : World) → CountedIn (length v.calls) g left (loop e g v))
    → CountedIn n f (suc left) (resume r loop)
resume-CountedIn n f left (done t v) loop c step = omega arith
resume-CountedIn n f left (next e g v) loop c step =
    let (a, b, d) = step e g v in (omega arith, omega arith, omega arith)

module _ (up : Upstream) (prov : Provider) (model_id : Text) (timeout deadline : ℕ) where
  failure-Counted :
      (key : Text) (f : ℕ) (e : Error) (c : Call) (w : World)
      → Counted f
          (length w.calls)
          (failure up prov model_id timeout deadline key f e (after up c w))
  unfolding failure after
  failure-Counted key f e c w = elim (Bool-cases (is e rate_limit)) [
    | inl y ↦ rw y (omega arith)
    | inr n ↦ elim (Bool-cases (is_retryable e)) [
      | inl y ↦ rw (n, y) (omega arith)
      | inr y ↦ rw (n, y) (omega arith)
    ]
  ]

  called-Counted :
      (provider_id key : Text) (idx n f : ℕ) (c : Call) (w : World)
      → Counted f (length w.calls) (
          outcome up prov model_id timeout deadline provider_id key idx n f
            (call up prov model_id timeout deadline c w).0
            (call up prov model_id timeout deadline c w).1)
  unfolding outcome call after
  called-Counted provider_id key idx n f c w = elim (Option-cases (up w.calls c).error) [
    | inl e ↦ rw (e, outcome) (omega arith)
    | inr (x, e) ↦ rw (e, outcome) (failure-Counted key f x c w)
  ]

  round-Counted :
      (provider_id key : Text) (idx n f : ℕ) (w : World)
      → Counted f
          (length w.calls)
          (round up prov model_id timeout deadline provider_id key idx n f w)
  unfolding round is_retryable is
  round-Counted provider_id key idx n f w = elim (Bool-cases (is_rate_limited w.ks key w.now)) [
    | inl y ↦ rw (y, round) (omega arith)
    | inr no_wait ↦ elim (Bool-cases (has_header_timeout prov)) [
      | inl y ↦ elim (Bool-cases (leb deadline w.now)) [
        | inl z ↦ rw (no_wait, y, z) (omega arith)
        | inr z ↦ rw (no_wait, y, z) (called-Counted provider_id key idx n f _ w)
      ]
      | inr y ↦ rw (no_wait, y) (called-Counted provider_id key idx n f _ w)
    ]
  ]

  rounds_counted :
      (provider_id : Text) (keys : List Text) (start left i : ℕ) (last : Option Error) (f : ℕ)
      (w : World)
      → CountedIn
          (length w.calls)
          f
          left
          (rounds up prov model_id timeout deadline provider_id keys start left i last f w)
  unfolding rounds
  rounds_counted provider_id keys start zero i none f w = (omega arith, omega arith, omega arith)
  rounds_counted provider_id keys start zero i (some e) f w =
      (omega arith, omega arith, omega arith)
  rounds_counted provider_id keys start (suc left) i last f w =
      resume-CountedIn (length w.calls) f left _ _ (round-Counted provider_id _ _ _ f w)
        (λ e g v. rounds_counted provider_id keys start left (suc i) (some e) g v)

  keyless_counted :
      (w : World)
      → let (t, v) =
          keyless up prov model_id timeout deadline
            (stream up prov model_id timeout deadline [] w) in
        (length v.calls ≤ length w.calls + 1) × (t.key_fallbacks ≡ 0)
  unfolding keyless stream call after
  keyless_counted w = elim (Bool-cases (has_header_timeout prov)) [
    | inl y ↦ elim (Bool-cases (leb deadline w.now)) [
      | inl z ↦ rw (y, z) (omega arith)
      | inr z ↦ rw (y, z) (omega arith)
    ]
    | inr y ↦ rw y (omega arith)
  ]

-- tryProvider makes at most one call more than the failures it counts, and counts at most as
-- many failures as the provider has keys.
pub try_provider_counted :
    (up : Upstream) (prov : Provider) (model_id provider_id : Text) (keys : List Text) (timeout : ℕ)
    (w : World)
    → let (t, v) = try_provider up prov model_id provider_id keys timeout w in
      (length v.calls ≤ length w.calls + t.key_fallbacks + 1) × (t.key_fallbacks ≤ length keys)
unfolding try_provider
try_provider_counted up prov model_id provider_id [] timeout w =
    let (a, b) = keyless_counted up prov model_id timeout (w.now + timeout) w in
    (omega arith, omega arith)
try_provider_counted up prov model_id provider_id (key ∷ keys) timeout w =
    let (a, b, c) =
      rounds_counted up prov model_id timeout (w.now + timeout) provider_id (key ∷ keys)
        (start_idx w.ks provider_id (length (key ∷ keys))) (length (key ∷ keys)) 0 none 0 w in
    (omega arith, omega arith)
