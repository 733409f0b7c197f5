-- ===== src/Router/Attempt/Passes.antt =====
-- What tryProvider leaves to the router where no call ends in an error that forbids another attempt.
use claude_code_router.Common.{
  leb, ◌⊎◌, ℕ, zero, suc, ◌+◌, ◌≡◌, refl, Text, text_eq, text_eq_iff, true, false, List, [], ◌∷◌,
  Option, none, some, length, Option-cases, Bool-cases, inl, inr, ◌∙◌,
}
use claude_code_router.Providers.Errors.{Error, is, rate_limit}
use claude_code_router.Router.KeyState.{is_rate_limited, mark_rate_limited, KeyState}
use claude_code_router.Router.KeyState.Laws.{is_rate_limited-mark_rate_limited}
use claude_code_router.Router.Upstream.{
  Provider, Call, Upstream, World, is_retryable, after, has_header_timeout,
}
use claude_code_router.Router.Attempt.{
  stream, keyless, Tried, Round, done, next, resume, failure, outcome, round, rounds, try_provider,
  call, call_of,
}

-- The key is not cooling down, at any time.
abbrev pub IsFree : Text → KeyState → Type 0
IsFree good ks = (now : ℕ) → is_rate_limited ks good now ≡ false

mark_other :
    (good key : Text) (retry_after t : ℕ) (ks : KeyState)
    → text_eq key good ≡ false
    → IsFree good ks
    → IsFree good (mark_rate_limited ks key retry_after t)
mark_other good key retry_after t ks n free now =
    is_rate_limited-mark_rate_limited ks key good retry_after t now ∙ rw (n, free now) refl

-- Calls with the key succeed, and what other requests do leaves it free.
abbrev pub Works : Upstream → Text → Type 0
Works up good =
    (h : List Call) (c : Call)
    → (c.api_key ≡ good → (up h c).error ≡ none)
      × ((ks : KeyState) → IsFree good ks → IsFree good ((up h c).others ks))

-- Every error allows another attempt.
abbrev pub FailsSoftly : Upstream → Type 0
FailsSoftly up =
    (h : List Call) (c : Call) (e : Error) → (up h c).error ≡ some e → is_retryable e ≡ true

-- A round succeeds, or another may follow: it was not the good key's, which stays free.
abbrev pub Goes : Text → Text → Round → Type 0
Goes good key (done t v) = t.error ≡ none
Goes good key (next e f v) = (text_eq key good ≡ false) × (is_retryable e ≡ true) × IsFree good v.ks

-- The same of a round whose budget may have run out.
abbrev Yields : Text → Round → Type 0
Yields good (done t v) = t.error ≡ none
Yields good (next e f v) = (is_retryable e ≡ true) × IsFree good v.ks

-- A whole tryProvider succeeds, or lets the router go on.
abbrev pub Passes : Text → Tried × World → Type 0
Passes good (t, v) =
    (t.error ≡ none)
    ⊎ ((e : Error) × (t.error ≡ some e) × (is_retryable e ≡ true) × IsFree good v.ks)

Goes-Yields : (good key : Text) (r : Round) → Goes good key r → Yields good r
Goes-Yields good key (done t v) g = g
Goes-Yields good key (next e f v) g = (g.1, g.2)

module _ (up : Upstream) (prov : Provider) (model_id : Text) (timeout deadline : ℕ) (p : Text)
    (keys : List Text) (good : Text) (works : Works up good) (softly : FailsSoftly up) where
  failure-Goes :
      (key : Text) (f : ℕ) (e : Error) (w : World)
      → text_eq key good ≡ false
      → is_retryable e ≡ true
      → IsFree good w.ks
      → Goes good key (failure up prov model_id timeout deadline key f e w)
  unfolding failure
  failure-Goes key f e w n y free = elim (Bool-cases (is e rate_limit)) [
    | inl q ↦ rw q (n, y, mark_other good key _ w.now w.ks n free)
    | inr q ↦ rw (q, y) (n, y, free)
  ]

  -- A cooling key, or one whose call failed, is another than the good one.
  pub cooling-other :
      (key : Text) (w : World)
      → IsFree good w.ks
      → is_rate_limited w.ks key w.now ≡ true
      → text_eq key good ≡ false
  cooling-other key w free y = elim (Bool-cases (text_eq key good)) [
    | inr n ↦ n
    | inl q ↦ let k = (text_eq_iff key good).0 q in absurd (cc (y, k, free w.now))
  ]

  failed-other :
      (h : List Call) (c : Call) (e : Error)
      → (up h c).error ≡ some e
      → text_eq c.api_key good ≡ false
  failed-other h c e y = elim (Bool-cases (text_eq c.api_key good)) [
    | inr n ↦ n
    | inl q ↦ absurd (cc (y, (works h c).0 ((text_eq_iff c.api_key good).0 q)))
  ]

  pub called-Goes :
      (key : Text) (idx n f : ℕ) (b : Option ℕ) (w : World)
      → IsFree good w.ks
      → let res =
          call up prov model_id timeout deadline
            (call_of up prov model_id timeout deadline key b)
            w in
        Goes good key (outcome up prov model_id timeout deadline p key idx n f res.0 res.1)
  unfolding outcome call call_of after
  called-Goes key idx n f b w free =
      let c = call_of up prov model_id timeout deadline key b in
      elim (Option-cases (up w.calls c).error) [
        | inl q ↦ rw (q, outcome) refl
        | inr (e, q) ↦
            rw (q, outcome)
              (failure-Goes key f e _ (failed-other w.calls c e q) (softly w.calls c e q)
                ((works w.calls c).1 w.ks free))
      ]

module _ (up : Upstream) (prov : Provider) (model_id : Text) (timeout deadline : ℕ) (p : Text)
    (keys : List Text) (good : Text) (works : Works up good) (softly : FailsSoftly up) where
  round-Yields :
      (key : Text) (idx n f : ℕ) (w : World)
      → IsFree good w.ks
      → Yields good (round up prov model_id timeout deadline p key idx n f w)
  unfolding round is_retryable is
  round-Yields key idx n f w free = elim (Bool-cases (is_rate_limited w.ks key w.now)) [
    | inl y ↦ rw (y, round) (refl, free)
    | inr y ↦ elim (Bool-cases (has_header_timeout prov)) [
      | inl t ↦ elim (Bool-cases (leb deadline w.now)) [
        | inl z ↦ rw (y, t, z) (refl, free)
        | inr z ↦
            rw (y, t, z)
              (Goes-Yields good key _ (
                called-Goes up prov model_id timeout deadline p keys good works softly key idx n f _
                  w free))
      ]
      | inr t ↦
          rw (y, t)
            (Goes-Yields good key _ (
              called-Goes up prov model_id timeout deadline p keys good works softly key idx n f _ w
                free))
    ]
  ]

  resume-Passes :
      (r : Round) (loop : Error → ℕ → World → Tried × World)
      → Yields good r
      → ((e : Error) (f : ℕ) (v : World)
          → is_retryable e ≡ true
          → IsFree good v.ks
          → Passes good (loop e f v))
      → Passes good (resume r loop)
  resume-Passes (done t v) loop g step = inl g
  resume-Passes (next e f v) loop g step = step e f v g.0 g.1

  rounds-Passes :
      (start left i : ℕ) (e : Error) (f : ℕ) (w : World)
      → is_retryable e ≡ true
      → IsFree good w.ks
      → Passes good (rounds up prov model_id timeout deadline p keys start left i (some e) f w)
  unfolding rounds
  rounds-Passes start zero i e f w y free = inr (e, refl, y, free)
  rounds-Passes start (suc left) i e f w y free =
      resume-Passes _ _ (round-Yields _ _ _ f w free)
        (λ x g v. rounds-Passes start left (suc i) x g v)

  called-Passes :
      (b : Option ℕ) (w : World)
      → IsFree good w.ks
      → Passes good (
          keyless up prov model_id timeout deadline (
            call up prov model_id timeout deadline
              (call_of up prov model_id timeout deadline [] b)
              w))
  unfolding keyless call call_of after
  called-Passes b w free =
      let c = call_of up prov model_id timeout deadline [] b in
      elim (Option-cases (up w.calls c).error) [
        | inl q ↦ inl q
        | inr (e, q) ↦ inr (e, q, softly w.calls c e q, (works w.calls c).1 w.ks free)
      ]

  keyless-Passes :
      (w : World)
      → IsFree good w.ks
      → Passes good (
          keyless up prov model_id timeout deadline (stream up prov model_id timeout deadline [] w))
  unfolding stream is_retryable is keyless
  keyless-Passes w free = elim (Bool-cases (has_header_timeout prov)) [
    | inl t ↦ elim (Bool-cases (leb deadline w.now)) [
      | inl z ↦ rw (t, z) (inr (_, refl, refl, free))
      | inr z ↦ rw (t, z) (called-Passes _ w free)
    ]
    | inr t ↦ rw t (called-Passes _ w free)
  ]

-- tryProvider succeeds, or lets the router go on to the next provider.
pub try_provider-Passes :
    (up : Upstream) (prov : Provider) (model_id p good : Text) (keys : List Text) (timeout : ℕ)
    (w : World)
    → Works up good
    → FailsSoftly up
    → IsFree good w.ks
    → Passes good (try_provider up prov model_id p keys timeout w)
unfolding try_provider rounds
try_provider-Passes up prov model_id p good [] timeout w works softly free =
    keyless-Passes up prov model_id timeout (w.now + timeout) p [] good works softly w free
try_provider-Passes up prov model_id p good (key ∷ keys) timeout w works softly free =
    resume-Passes up prov model_id timeout (w.now + timeout) p (key ∷ keys) good works softly _ _
      (round-Yields up prov model_id timeout (w.now + timeout) p (key ∷ keys) good works softly _ _
        _ 0 w free)
      (λ e g v.
        rounds-Passes up prov model_id timeout (w.now + timeout) p (key ∷ keys) good works softly _
          (length keys) 1 e g v)
