-- ===== src/Router/Attempt.antt =====
-- router/router.go, tryProvider: the keys of one provider in round-robin order.
pub mod Calls
pub mod Counts
pub mod Cursor
pub mod Passes
pub mod Progress
pub mod Skips
use claude_code_router.Json.{ℤ, pos}
use claude_code_router.Common.{
  ℕ, zero, suc, ◌+◌, ◌-◌, ◌%◌, Text, Bool, true, false, ◌||◌, leb, if◌then◌else◌, List, [], ◌∷◌,
  Option, none, some, length, get_or,
}
use claude_code_router.Providers.Errors.{
  Error, sentinel, attempt_timeout_error, is, as_rate_limit, rate_limit, upstream, attempt_timeout,
  connection, model_unavailable,
}
use claude_code_router.Router.KeyState.{
  or_zero, is_rate_limited, mark_rate_limited, start_idx, advance_idx,
}
use claude_code_router.Router.Upstream.{
  Provider, has_header_timeout, Call, Reply, Upstream, World, is_retryable, after, reply,
}

-- The results of one call of `stream` inside tryProvider.
pub record Streamed : Type 0 where
  pub input_tokens : ℤ
  pub output_tokens : ℤ
  pub error : Option Error

-- The four results of tryProvider.
pub record Tried : Type 0 where
  pub input_tokens : ℤ
  pub output_tokens : ℤ
  pub key_fallbacks : ℕ
  pub error : Option Error

-- What one round of the loop does: return from tryProvider, or go on with lastErr and keyFallbacks.
pub data Round : Type 0 where
  done : Tried → World → Round
  next : (last : Error) (fallbacks : ℕ) → World → Round

abbrev resume : Round → (Error → ℕ → World → Tried × World) → Tried × World
resume (done t w) loop = (t, w)
resume (next e f w) loop = loop e f w

abbrev pub failed : ℕ → Error → Tried
failed fallbacks e = record {
  input_tokens = pos 0;
  output_tokens = pos 0;
  key_fallbacks = fallbacks;
  error = some e;
}

module _ (up : Upstream) (prov : Provider) (model_id : Text) (attempt_timeout deadline : ℕ) where
  pub call_of : Text → Option ℕ → Call
  call_of key b = record { provider = prov; model_id = model_id; api_key = key; budget = b }

  pub call : Call → World → Streamed × World
  call c w =
      let r = reply up c w in
      (
        record { input_tokens = r.input_tokens; output_tokens = r.output_tokens; error = r.error },
        after up c w,
      )

  -- The closure `stream`: a provider with the timeout method gets what is left of the budget.
  stream : Text → World → Streamed × World
  unfolding call_of call
  stream key w =
      if has_header_timeout prov
      then (if leb deadline w.now
          then (
            record {
              input_tokens = pos 0;
              output_tokens = pos 0;
              error = some (attempt_timeout_error attempt_timeout);
            },
            w,
          )
          else call (call_of key (some (deadline - w.now))) w)
      else call (call_of key none) w

  -- The branches on the error of a call that was made with `key`; a 429 is settled by the first, so
  -- `is_retryable` adds the other four sentinels in the second.
  failure : Text → ℕ → Error → World → Round
  failure key fallbacks e w =
      if is e rate_limit
      then next e (fallbacks + 1)
          (record w { ks = mark_rate_limited w.ks key (or_zero (as_rate_limit e)) w.now })
      else if is_retryable e
      then next e (fallbacks + 1) w
      else done (failed fallbacks e) w

  pub outcome : Text → Text → ℕ → ℕ → ℕ → Streamed → World → Round
  outcome provider_id key idx n fallbacks s w = elim s.error [
    | none ↦
        done
          (record {
            input_tokens = s.input_tokens;
            output_tokens = s.output_tokens;
            key_fallbacks = fallbacks;
            error = none;
          })
          (record w { ks = advance_idx w.ks provider_id idx n })
    | some e ↦ failure key fallbacks e w
  ]

  -- The body of the loop for the key at `idx`.
  pub round : Text → Text → ℕ → ℕ → ℕ → World → Round
  unfolding stream failure outcome
  round provider_id key idx n fallbacks w =
      if is_rate_limited w.ks key w.now
      then next (sentinel rate_limit) fallbacks w
      else (let (s, w') = stream key w in outcome provider_id key idx n fallbacks s w')

  -- The rounds i, i + 1, … of the loop; `left` of them are to come.
  unfoldable pub rounds : Text → List Text → ℕ → ℕ → ℕ → Option Error → ℕ → World → Tried × World
  unfolding round
  rounds provider_id keys start zero i last fallbacks w = elim last [
    | none ↦ (failed fallbacks (sentinel upstream), w)
    | some e ↦ (failed fallbacks e, w)
  ]
  rounds provider_id keys start (suc left) i last fallbacks w =
      let idx = (start + i) % length keys in
      resume (round provider_id (get_or keys idx []) idx (length keys) fallbacks w)
        (λ e f w'. rounds provider_id keys start left (suc i) (some e) f w')

  keyless : Streamed × World → Tried × World
  keyless (s, w) = (
    record {
      input_tokens = s.input_tokens;
      output_tokens = s.output_tokens;
      key_fallbacks = 0;
      error = s.error;
    },
    w,
  )

  rotate : Text → List Text → World → Tried × World
  rotate provider_id keys w =
      rounds provider_id keys (start_idx w.ks provider_id (length keys)) (length keys) 0 none 0 w

  tried : Text → List Text → World → Tried × World
  unfolding keyless stream rotate
  tried provider_id [] w = keyless (stream [] w)
  tried provider_id (k ∷ ks) w = rotate provider_id (k ∷ ks) w

unfoldable pub try_provider :
    Upstream
    → Provider
    → (model_id provider_id : Text) → List Text
    → (timeout : ℕ) → World
    → Tried × World
unfolding tried
try_provider up prov model_id provider_id keys timeout w =
    tried up prov model_id timeout (w.now + timeout) provider_id keys w
