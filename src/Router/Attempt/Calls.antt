-- ===== src/Router/Attempt/Calls.antt =====
-- Which calls tryProvider makes, in what order of failures, and what they leave on the writer.
use claude_code_router.Common.{
  [], zero, none, ◌+◌, ℕ, suc, ◌≡◌, refl, ◌∙◌, Text, true, false, leb, List, ◌∷◌, ◌++◌, Option,
  some, Option-cases, Bool-cases, inl, inr,
}
use claude_code_router.Providers.Errors.{
  attempt_timeout_error, upstream, sentinel, Error, is, rate_limit,
}
use claude_code_router.Router.KeyState.{is_rate_limited}
use claude_code_router.Router.Upstream.{
  Provider, has_header_timeout, Call, Upstream, World, is_retryable, IsSilent, after,
}
use claude_code_router.Router.Attempt.{
  keyless, stream, try_provider, resume, rounds, Tried, Round, done, next, failure, outcome, round,
  call,
}
use mathlib.Core.List.{append-nil}

-- `k` calls were made after the calls `h₀`, and each failed with a retryable error.
pub data Tries (up : Upstream) (h₀ : List Call) (o₀ : Text) : List Call → Text → ℕ → Type 0 where
  none_yet : Tries up h₀ o₀ h₀ o₀ 0
  retried :
      {h : List Call} {o : Text} {k : ℕ}
      → Tries up h₀ o₀ h o k
      → (c : Call) (e : Error) → (up h c).error ≡ some e
      → is_retryable e ≡ true
      → Tries up h₀ o₀ (c ∷ h) (o ++ (up h c).written) (suc k)

-- How an attempt that began with the calls `h₀` and the output `o₀` has ended, by its error.
pub data Settled (up : Upstream) (h₀ : List Call) (o₀ : Text) (e : Option Error) (v : World)
    : Type 0 where
  -- The newest call decided: it succeeded, or failed with an error that is not retryable.
  decided :
      (h : List Call) (o : Text) (k : ℕ) (c : Call)
      → Tries up h₀ o₀ h o k
      → (up h c).error ≡ e
      → ((x : Error) → e ≡ some x → is_retryable x ≡ false)
      → v.calls ≡ c ∷ h
      → v.out ≡ o ++ (up h c).written
      → Settled up h₀ o₀ e v
  -- Every call failed with a retryable error.
  spent :
      (k : ℕ) (x : Error)
      → Tries up h₀ o₀ v.calls v.out k
      → e ≡ some x
      → is_retryable x ≡ true
      → Settled up h₀ o₀ e v

-- The same for one round that goes on.
pub data Settles (up : Upstream) (h₀ : List Call) (o₀ : Text) : Round → Type 0 where
  returns : {t : Tried} {v : World} → Settled up h₀ o₀ t.error v → Settles up h₀ o₀ (done t v)
  goes_on :
      {x : Error} {f : ℕ} {v : World} (k : ℕ)
      → Tries up h₀ o₀ v.calls v.out k
      → is_retryable x ≡ true
      → Settles up h₀ o₀ (next x f v)

-- Failed attempts leave no bytes.
pub Tries-silent :
    (up : Upstream) {h₀ : List Call} {o₀ : Text} {h : List Call} {o : Text} {k : ℕ}
    → IsSilent up
    → Tries up h₀ o₀ h o k
    → o ≡ o₀
Tries-silent up s none_yet = refl
Tries-silent up s (retried {h} {o} t c e p q) =
    rw (s h c e p q) (append-nil o ∙ Tries-silent up s t)

module _ (up : Upstream) (prov : Provider) (model_id : Text) (timeout deadline : ℕ) (h₀ : List Call)
    (o₀ : Text) where
  failure-Settles :
      (key : Text) (f k : ℕ) (c : Call) (e : Error) (w : World)
      → Tries up h₀ o₀ w.calls w.out k
      → (up w.calls c).error ≡ some e
      → Settles up h₀ o₀ (failure up prov model_id timeout deadline key f e (after up c w))
  unfolding failure after
  failure-Settles key f k c e w t p = elim (Bool-cases (is e rate_limit)) [
    | inl y ↦ rw y (goes_on (suc k) (retried t c e p (limited y)) (limited y))
    | inr n ↦ elim (Bool-cases (is_retryable e)) [
      | inl y ↦ rw (n, y) (goes_on (suc k) (retried t c e p y) y)
      | inr m ↦ rw (n, m) (returns (decided w.calls w.out k c t p (λ x q. cc) refl refl))
    ]
  ]
    where
      limited : is e rate_limit ≡ true → is_retryable e ≡ true
      limited y = unfold is_retryable in rw y

  -- A call was made, and the round branches on its error.
  called-Settles :
      (provider_id key : Text) (idx n f k : ℕ) (c : Call) (w : World)
      → Tries up h₀ o₀ w.calls w.out k
      → Settles up h₀ o₀ (
          outcome up prov model_id timeout deadline provider_id key idx n f
            (call up prov model_id timeout deadline c w).0
            (call up prov model_id timeout deadline c w).1)
  unfolding outcome call after
  called-Settles provider_id key idx n f k c w t = elim (Option-cases (up w.calls c).error) [
    | inl e ↦ rw (e, outcome) (returns (decided w.calls w.out k c t e (λ x q. cc) refl refl))
    | inr (x, e) ↦ rw (e, outcome) (failure-Settles key f k c x w t e)
  ]

  round-Settles :
      (provider_id key : Text) (idx n f k : ℕ) (w : World)
      → Tries up h₀ o₀ w.calls w.out k
      → Settles up h₀ o₀ (round up prov model_id timeout deadline provider_id key idx n f w)
  unfolding round is_retryable is
  round-Settles provider_id key idx n f k w t = elim (Bool-cases (is_rate_limited w.ks key w.now)) [
    | inl y ↦ rw (y, round) (goes_on k t refl)
    | inr no_wait ↦ elim (Bool-cases (has_header_timeout prov)) [
      | inl y ↦ elim (Bool-cases (leb deadline w.now)) [
        | inl z ↦ rw (no_wait, y, z) (goes_on k t refl)
        | inr z ↦ rw (no_wait, y, z) (called-Settles provider_id key idx n f k _ w t)
      ]
      | inr y ↦ rw (no_wait, y) (called-Settles provider_id key idx n f k _ w t)
    ]
  ]

  resume-Settled :
      (r : Round) (loop : Error → ℕ → World → Tried × World)
      → Settles up h₀ o₀ r
      → ((x : Error) (f k : ℕ) (v : World)
          → Tries up h₀ o₀ v.calls v.out k
          → is_retryable x ≡ true
          → Settled up h₀ o₀ (loop x f v).0.error (loop x f v).1)
      → Settled up h₀ o₀ (resume r loop).0.error (resume r loop).1
  resume-Settled (done t v) loop (returns s) step = s
  resume-Settled (next x f v) loop (goes_on k t p) step = step x f k v t p

  rounds-Settled :
      (provider_id : Text) (keys : List Text) (start left i : ℕ) (last : Option Error) (f k : ℕ)
      (w : World)
      → Tries up h₀ o₀ w.calls w.out k
      → ((x : Error) → last ≡ some x → is_retryable x ≡ true)
      → let res = rounds up prov model_id timeout deadline provider_id keys start left i last f w in
        Settled up h₀ o₀ res.0.error res.1
  unfolding rounds is_retryable is
  rounds-Settled provider_id keys start zero i none f k w t p =
      spent k (sentinel upstream) t refl refl
  rounds-Settled provider_id keys start zero i (some e) f k w t p = spent k e t refl (p e refl)
  rounds-Settled provider_id keys start (suc left) i last f k w t p =
      resume-Settled _ _ (round-Settles provider_id _ _ _ f k w t) (λ x f' k' v t' q.
        rounds-Settled provider_id keys start left (suc i) (some x) f' k' v t' (λ y e. cc))

  keyless_call-Settled :
      (k : ℕ) (c : Call) (w : World)
      → Tries up h₀ o₀ w.calls w.out k
      → Settled up h₀ o₀ (up w.calls c).error (after up c w)
  unfolding after
  keyless_call-Settled k c w t = elim (Option-cases (up w.calls c).error) [
    | inl e ↦ decided w.calls w.out k c t refl (λ x q. cc) refl refl
    | inr (x, e) ↦ elim (Bool-cases (is_retryable x)) [
      | inl y ↦ spent (suc k) x (retried t c x e y) e y
      | inr y ↦ decided w.calls w.out k c t refl (λ x' q. cc) refl refl
    ]
  ]

  -- A provider without keys is called once, with the empty key.
  keyless-Settled :
      (k : ℕ) (w : World)
      → Tries up h₀ o₀ w.calls w.out k
      → let res =
          keyless up prov model_id timeout deadline
            (stream up prov model_id timeout deadline [] w) in
        Settled up h₀ o₀ res.0.error res.1
  unfolding keyless stream call is_retryable is
  keyless-Settled k w t = elim (Bool-cases (has_header_timeout prov)) [
    | inl y ↦ elim (Bool-cases (leb deadline w.now)) [
      | inl z ↦ rw (y, z) (spent k (attempt_timeout_error timeout) t refl refl)
      | inr z ↦ rw (y, z) (keyless_call-Settled k _ w t)
    ]
    | inr y ↦ rw y (keyless_call-Settled k _ w t)
  ]

-- However tryProvider ends, all its calls but the newest failed with retryable errors; the newest
-- succeeded or failed for good exactly as the result says; and the bytes written are theirs.
pub try_provider-Settled :
    (up : Upstream) (prov : Provider) (model_id provider_id : Text) (keys : List Text) (timeout : ℕ)
    (h₀ : List Call) (o₀ : Text) (k : ℕ) (w : World)
    → Tries up h₀ o₀ w.calls w.out k
    → let res = try_provider up prov model_id provider_id keys timeout w in
      Settled up h₀ o₀ res.0.error res.1
unfolding try_provider stream
try_provider-Settled up prov model_id provider_id [] timeout h₀ o₀ k w t =
    keyless-Settled up prov model_id timeout (w.now + timeout) h₀ o₀ k w t
try_provider-Settled up prov model_id provider_id (key ∷ keys) timeout h₀ o₀ k w t =
    rounds-Settled up prov model_id timeout (w.now + timeout) h₀ o₀ provider_id (key ∷ keys) _ _ 0
      none 0 k w t (λ x e. cc)
