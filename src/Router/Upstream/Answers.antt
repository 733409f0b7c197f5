-- ===== src/Router/Upstream/Answers.antt =====
-- The upstreams of the router are the two providers: their replies are what Stream returns for some
-- HTTP exchange.
use claude_code_router.Common.{[], true, ◌≡◌, sym, ◌∙◌, ℕ, Text, Option, none, some, List}
use claude_code_router.Json.{Json}
use claude_code_router.Providers.Errors.{Error}
use claude_code_router.Providers.Http.{Exchange, Streamed}
use claude_code_router.Providers.Anthropic.{stream}
use claude_code_router.Providers.Anthropic.Quiet.{IsQuiet, anthropic_stream-IsQuiet}
use claude_code_router.Providers.OpenAi.{Event}
use claude_code_router.Providers.OpenAi.Client
use claude_code_router.Providers.OpenAi.Client.Failures.{openai_stream-IsQuiet}
use claude_code_router.Router.Upstream.{
  Provider, anthropic, openai, Call, Reply, Upstream, IsSilent, is_retryable,
}

-- The reply has the results and the bytes of a call of Stream.
abbrev Same : Reply → Streamed → Type 0
Same p r =
    (p.input_tokens ≡ r.input_tokens)
    × (p.output_tokens ≡ r.output_tokens)
    × (p.error ≡ r.error)
    × (p.written ≡ r.written)

-- The timeout that stream gets: what is left of the budget, or the provider's own.
abbrev timeout_of : Option ℕ → ℕ → ℕ
timeout_of none own = own
timeout_of (some left) own = left

module _ (decode : Text → Option Json) (find_limits : Text → Option (ℕ × ℕ))
    (retry_after : Text → ℕ) (render : Event → Text) where
  abbrev pub Answer : Provider → Call → Reply → Type 0
  Answer (anthropic base_url) c p = (x : Exchange) × Same p (stream decode retry_after x)
  Answer (openai base_url own) c p =
      (x : Exchange) × (r : Streamed) × (Client.stream decode find_limits retry_after render
          c.model_id (timeout_of c.budget own) x
        ≡ some r)
      × Same p r

  abbrev pub IsAnswering : Upstream → Type 0
  IsAnswering up = (h : List Call) (c : Call) → Answer c.provider c (up h c)

  quiet :
      (p : Reply) (r : Streamed) (e : Error)
      → Same p r
      → IsQuiet r
      → p.error ≡ some e
      → is_retryable e ≡ true
      → p.written ≡ []
  quiet p r e s q f h = s.3 ∙ q e (sym s.2 ∙ f) h

  Answer-silent :
      (v : Provider) (c : Call) (p : Reply) (e : Error)
      → Answer v c p
      → p.error ≡ some e
      → is_retryable e ≡ true
      → p.written ≡ []
  Answer-silent (anthropic base_url) c p e (x, s) f h =
      quiet p _ e s (anthropic_stream-IsQuiet decode retry_after x) f h
  Answer-silent (openai base_url own) c p e (x, r, q, s) f h =
      quiet p r e s (openai_stream-IsQuiet decode find_limits retry_after render c.model_id _ x r q)
        f h

  -- The two providers keep the contract that the router relies on: where every reply is what Stream
  -- returns for some HTTP exchange, an attempt that fails with a retryable error has written nothing.
  pub answering-IsSilent : (up : Upstream) → IsAnswering up → IsSilent up
  answering-IsSilent up a h c e f r = Answer-silent c.provider c (up h c) e (a h c) f r
