-- ===== src/Router/Upstream.antt =====
-- What router/router.go sees of the rest of the world while it serves one request: the providers it
-- calls through the interface of providers/base.go, the clock, the shared key state and the writer
-- that it was handed.
pub mod Answers
use claude_code_router.Json.{ℤ}
use claude_code_router.Common.{
  ℕ, Text, Bool, true, false, List, [], ◌∷◌, ◌++◌, Option, some, ◌≡◌, ◌||◌, ◌+◌,
}
use claude_code_router.Providers.Errors.{
  Error, is, rate_limit, upstream, attempt_timeout, connection, model_unavailable,
}
use claude_code_router.Router.KeyState.{KeyState}

-- The two implementations of the interface Provider; only the second has the method
-- StreamWithResponseHeaderTimeout. A timeout of zero asks for the provider's default.
pub data Provider : Type 0 where
  anthropic : (base_url : Text) → Provider
  openai : (base_url : Text) (timeout : ℕ) → Provider

abbrev pub has_header_timeout : Provider → Bool
has_header_timeout (anthropic u) = false
has_header_timeout (openai u d) = true

-- One call of Stream (`budget` is `none`) or of StreamWithResponseHeaderTimeout.
pub record Call : Type 0 where
  pub provider : Provider
  pub model_id : Text
  pub api_key : Text
  pub budget : Option ℕ

-- What comes of a call: the time it takes, the bytes it writes to w, its three results, and what the
-- other requests that are served meanwhile do to the shared key state.
pub record Reply : Type 0 where
  pub elapsed : ℕ
  pub written : Text
  pub input_tokens : ℤ
  pub output_tokens : ℤ
  pub error : Option Error
  pub others : KeyState → KeyState

-- The upstreams answer as they like; an answer may depend on all earlier calls, newest first.
abbrev pub Upstream : Type 0
Upstream = List Call → Call → Reply

pub record World : Type 0 where
  pub now : ℕ
  pub ks : KeyState
  pub calls : List Call
  pub out : Text

-- The errors after which the next key, provider or model is tried.
unfoldable pub is_retryable : Error → Bool
is_retryable e =
    is e rate_limit
    || is e upstream
    || is e attempt_timeout
    || is e connection
    || is e model_unavailable

-- The world after a call.
unfoldable pub after : Upstream → Call → World → World
after up c w =
    let r = up w.calls c in
    record w {
      now = w.now + r.elapsed;
      ks = r.others w.ks;
      calls = c ∷ w.calls;
      out = w.out ++ r.written;
    }

abbrev pub reply : Upstream → Call → World → Reply
reply up c w = up w.calls c

-- The contract of the interface Provider: an attempt that fails with a retryable error has left w
-- untouched.
abbrev pub IsSilent : Upstream → Type 0
IsSilent up =
    (h : List Call) (c : Call) (e : Error)
    → (up h c).error ≡ some e
    → is_retryable e ≡ true
    → (up h c).written ≡ []
