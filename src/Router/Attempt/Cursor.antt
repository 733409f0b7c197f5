-- ===== src/Router/Attempt/Cursor.antt =====
-- The round-robin cursor and the cooldowns across a whole tryProvider.
use claude_code_router.Common.{
  text_eq_refl, ◌∙◌, ℕ, zero, suc, ◌+◌, ◌%◌, ◌≤◌, ◌<◌, ◌≡◌, refl, Text, leb, List, [], ◌∷◌, Option,
  none, some, length, get_or, Option-cases, Bool-cases, inl, inr, arith, text_eq_refl, ◌∙◌,
}
use claude_code_router.Providers.Errors.{Error, is, rate_limit}
use claude_code_router.Router.KeyState.{is_rate_limited, start_idx, advance_idx, KeyState}
use claude_code_router.Router.KeyState.Laws.{start_idx-advance_idx}
use claude_code_router.Router.Upstream.{
  Provider, Call, Upstream, World, is_retryable, after, has_header_timeout,
}
use claude_code_router.Router.Attempt.{
  Tried, Round, done, next, resume, failure, outcome, round, rounds, try_provider, call, call_of,
}

-- The newest call was made with the key at the visited index `idx`, and the next request for this
-- provider starts one key further.
pub record Served (prov : Provider) (model_id p : Text) (keys : List Text) (idx : ℕ) (v : World)
    : Type 0 where
  pub call : Call
  pub earlier : List Call
  pub newest : v.calls ≡ call ∷ earlier
  pub called : call.provider ≡ prov
  pub model : call.model_id ≡ model_id
  pub key : call.api_key ≡ get_or keys idx []
  pub cursor : start_idx v.ks p (length keys) ≡ (idx + 1) % length keys

-- A round at `idx` that returns without an error has served the request with that key.
abbrev Serves : (prov : Provider) (model_id p : Text) (keys : List Text) (idx : ℕ) → Round → Type 0
Serves prov model_id p keys idx (done t v) = t.error ≡ none → Served prov model_id p keys idx v
Serves prov model_id p keys idx (next e f v) = Unit

module _ (up : Upstream) (prov : Provider) (model_id : Text) (timeout deadline : ℕ) (p : Text)
    (keys : List Text) where
  failure-Serves :
      (key : Text) (f : ℕ) (e : Error) (idx : ℕ) (w : World)
      → Serves prov model_id p keys idx (failure up prov model_id timeout deadline key f e w)
  unfolding failure
  failure-Serves key f e idx w = elim (Bool-cases (is e rate_limit)) [
    | inl y ↦ rw y tt
    | inr n ↦ elim (Bool-cases (is_retryable e)) [
      | inl y ↦ rw (n, y) tt
      | inr y ↦ rw (n, y) (λ q. cc)
    ]
  ]

  called-Serves :
      (idx f : ℕ) (b : Option ℕ) (w : World)
      → 0 < length keys
      → let key = get_or keys idx [] in
        let res =
          call up prov model_id timeout deadline
            (call_of up prov model_id timeout deadline key b)
            w in
        Serves prov model_id p keys idx
          (outcome up prov model_id timeout deadline p key idx (length keys) f res.0 res.1)
  unfolding outcome call call_of after
  called-Serves idx f b w h =
      elim (Option-cases
        (up w.calls (call_of up prov model_id timeout deadline (get_or keys idx []) b)).error) [
          | inl e ↦
              rw (e, outcome)
                (λ q. record {
                  call = call_of up prov model_id timeout deadline (get_or keys idx []) b;
                  earlier = w.calls;
                  newest = refl;
                  called = refl;
                  model = refl;
                  key = refl;
                  cursor = cursor _;
                })
          | inr (x, e) ↦ rw (e, outcome) (failure-Serves _ f x idx _)
        ]
    where
      cursor :
          (ks : KeyState)
          → start_idx (advance_idx ks p idx (length keys)) p (length keys) ≡ (idx + 1) % length keys
      cursor ks = start_idx-advance_idx ks p p idx (length keys) h ∙ rw (text_eq_refl p)

  round-Serves :
      (idx f : ℕ) (w : World)
      → 0 < length keys
      → Serves prov model_id p keys idx
          (round up prov model_id timeout deadline p (get_or keys idx []) idx (length keys) f w)
  unfolding round is_retryable is
  round-Serves idx f w h = elim (Bool-cases (is_rate_limited w.ks (get_or keys idx []) w.now)) [
    | inl y ↦ rw (y, round) tt
    | inr no_wait ↦ elim (Bool-cases (has_header_timeout prov)) [
      | inl y ↦ elim (Bool-cases (leb deadline w.now)) [
        | inl z ↦ rw (no_wait, y, z) tt
        | inr z ↦ rw (no_wait, y, z) (called-Serves idx f _ w h)
      ]
      | inr y ↦ rw (no_wait, y) (called-Serves idx f _ w h)
    ]
  ]

  -- One of the indices that the loop still visits served the request.
  abbrev Within : (start i left : ℕ) → World → Type 0
  Within start i left v =
      (j : ℕ) × (i ≤ j) × (j < i + left) × Served prov model_id p keys ((start + j) % length keys) v

  resume-Within :
      (start i left : ℕ) (r : Round) (loop : Error → ℕ → World → Tried × World)
      → Serves prov model_id p keys ((start + i) % length keys) r
      → ((e : Error) (f : ℕ) (v : World)
          → (loop e f v).0.error ≡ none
          → Within start (suc i) left (loop e f v).1)
      → (resume r loop).0.error ≡ none
      → Within start i (suc left) (resume r loop).1
  resume-Within start i left (done t v) loop s step q = (i, omega arith, omega arith, s q)
  resume-Within start i left (next e f v) loop s step q =
      let (j, a, b, served) = step e f v q in (j, omega (arith, a), omega (arith, b), served)

  rounds-Within :
      (start left i : ℕ) (last : Option Error) (f : ℕ) (w : World)
      → 0 < length keys
      → let res = rounds up prov model_id timeout deadline p keys start left i last f w in
        res.0.error ≡ none → Within start i left res.1
  unfolding rounds
  rounds-Within start zero i none f w h q = absurd (cc)
  rounds-Within start zero i (some e) f w h q = absurd (cc)
  rounds-Within start (suc left) i last f w h q =
      resume-Within start i left _ _ (round-Serves _ f w h)
        (λ e g v r. rounds-Within start left (suc i) (some e) g v h r) q

-- When tryProvider succeeds with one of its keys, it made its newest call with the key at some
-- position j of the rotation that begins at the provider's cursor, and it has left the cursor one key
-- past that key, whatever other requests did to the cursor while the calls were on their way.
pub try_provider-Served :
    (up : Upstream) (prov : Provider) (model_id p key : Text) (keys : List Text) (timeout : ℕ)
    (w : World)
    → (try_provider up prov model_id p (key ∷ keys) timeout w).0.error ≡ none
    → let n = length (key ∷ keys) in
      let res = try_provider up prov model_id p (key ∷ keys) timeout w in
      (j : ℕ) × (j < n) × Served prov model_id p (key ∷ keys) ((start_idx w.ks p n + j) % n) res.1
unfolding try_provider
try_provider-Served up prov model_id p key keys timeout w q =
    let res =
      rounds-Within up prov model_id timeout (w.now + timeout) p (key ∷ keys)
        (start_idx w.ks p (length (key ∷ keys))) (length (key ∷ keys)) 0 none 0 w (omega arith) q in
    (res.0, omega (arith, res.2), res.3)
