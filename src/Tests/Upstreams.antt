-- ===== src/Tests/Upstreams.antt =====
-- Upstreams that answer with a 429, or to which no request can be built.
use claude_code_router.Common.{ℕ, ◌≡◌, refl, Text, codes, false, [], Option, none, some}
use claude_code_router.Json.{Json}
use claude_code_router.Providers.Errors.{plain}
use claude_code_router.Providers.Http.{Exchange, not_built, responded, Streamed, refused}
use claude_code_router.Providers.Anthropic
use claude_code_router.Providers.Anthropic.Quiet.{IsQuiet, anthropic_stream-IsQuiet}
use claude_code_router.Providers.OpenAi.{Event}
use claude_code_router.Providers.OpenAi.Client.{stream}
use claude_code_router.Providers.OpenAi.Client.Failures.{openai_stream-IsQuiet}
use claude_code_router.Router.Upstream.{Provider, anthropic, openai, Reply, Upstream, IsSilent}
use claude_code_router.Router.Upstream.Answers.{Answer, IsAnswering, answering-IsSilent}

abbrev no_document : Text → Option Json
no_document s = none

abbrev no_limits : Text → Option (ℕ × ℕ)
no_limits s = none

abbrev no_delay : Text → ℕ
no_delay s = 0

abbrev nothing : Event → Text
nothing e = []

abbrev limited : Exchange
limited = responded (record {
  status = 429;
  retry_after = [];
  body = record { bytes = []; read_error = none; cancelled = λ i. false; met = λ i. false };
})

abbrev unbuilt : Exchange
unbuilt = not_built (codes "marshal request")

anthropic_stream-IsQuiet_example : IsQuiet (Anthropic.stream no_document no_delay limited)
anthropic_stream-IsQuiet_example = anthropic_stream-IsQuiet no_document no_delay limited

refuses :
    stream no_document no_limits no_delay nothing (codes "m") 9 unbuilt
    ≡ some (refused (plain (codes "marshal request")))
unfolding stream
refuses = refl

openai_stream-IsQuiet_example : IsQuiet (refused (plain (codes "marshal request")))
openai_stream-IsQuiet_example =
    openai_stream-IsQuiet no_document no_limits no_delay nothing (codes "m") 9 unbuilt
      (refused (plain (codes "marshal request"))) refuses

abbrev replying : Streamed → Reply
replying r = record {
  elapsed = 1;
  written = r.written;
  input_tokens = r.input_tokens;
  output_tokens = r.output_tokens;
  error = r.error;
  others = λ ks. ks;
}

abbrev reply_for : Provider → Reply
reply_for (anthropic u) = replying (Anthropic.stream no_document no_delay limited)
reply_for (openai u d) = replying (refused (plain (codes "marshal request")))

abbrev refusing : Upstream
refusing h c = reply_for c.provider

refusing-IsAnswering : IsAnswering no_document no_limits no_delay nothing refusing
unfolding stream
refusing-IsAnswering h c = by_provider c.provider
  where
    by_provider : (p : Provider) → Answer no_document no_limits no_delay nothing p c (reply_for p)
    by_provider (anthropic u) = (limited, (refl, refl, refl, refl))
    by_provider (openai u d) =
        (unbuilt, refused (plain (codes "marshal request")), refl, (refl, refl, refl, refl))

answering-IsSilent_example : IsSilent refusing
answering-IsSilent_example =
    answering-IsSilent no_document no_limits no_delay nothing refusing refusing-IsAnswering
