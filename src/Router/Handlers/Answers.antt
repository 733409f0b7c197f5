-- ===== src/Router/Handlers/Answers.antt =====
-- How the two endpoints answer.
use claude_code_router.Common.{
  ◌≡◌, ◌↔◌, refl, Text, Bool, true, false, not, if◌then◌else◌, List, Option, none, some, arith,
}
use claude_code_router.Json.{Json}
use claude_code_router.Json.Decode.{◌>>=◌}
use claude_code_router.Config.Types.{Config}
use claude_code_router.Db.{Database}
use claude_code_router.Providers.Request.{AnthropicRequest, request_of}
use claude_code_router.Router.OpenAiChunks.{Emitted}
use claude_code_router.Router.Upstream.{Upstream, World}
use claude_code_router.Router.Inbound.{normalised, openai_to_anthropic, anthropic_body_to_request}
use claude_code_router.Router.Proxy.{
  stream_response, message_response, Response, error_response, status_of, buffered,
}
use claude_code_router.Router.Proxy.Kinds.{
  IsDocument, IsStreamed, IsSettled, proxy-kind, proxy-IsSettled,
}
use claude_code_router.Router.Handlers.{
  Served, handle_messages, handle_chat_completions, forward, converted, proxied, bad_request,
  proxy_request,
}

-- A request that is refused leaves no trace: no event, no row and no call of a provider.
abbrev pub IsUntouched : Database → World → Served → Type 0
IsUntouched d w s = (s.event ≡ none) × (s.database ≡ d) × (s.world ≡ w)

unsettled : (a : Response) → IsSettled a → status_of a ≡ 400 → ⊥
unfolding status_of
unsettled (error_response status t) p q = absurd (omega (arith, p, q))
unsettled (message_response t) p q = absurd (omega (arith, q))
unsettled (stream_response t) p q = absurd (omega (arith, q))

module _ (decode : Text → Option Json) (encode : Json → Text) (render : Emitted → Text)
    (raw : Json → Text) (up : Upstream) (keys_of : Text → List Text) (cfg : Config) where
  converted_iff :
      (openai_out : Bool) (client_key : Text) (o : Option AnthropicRequest) (d : Database)
      (w : World)
      → let s = converted decode encode render raw up keys_of cfg openai_out client_key o d w in
        ((status_of s.response ≡ 400) ↔ (o ≡ none)) × (o ≡ none → IsUntouched d w s)
  unfolding bad_request proxied status_of
  converted_iff openai_out client_key none d w = ((λ h. refl, λ h. refl), λ h. (refl, refl, refl))
  converted_iff openai_out client_key (some req) d w = (
    (
      λ h. absurd (
          unsettled _
            (proxy-IsSettled decode encode render up keys_of cfg
              (proxy_request openai_out client_key req) d w)
            h),
      λ h. cc,
    ),
    λ h. cc,
  )

  -- POST /v1/messages answers 400 exactly when the body cannot be read or does not decode as a
  -- request, and then nothing is recorded, published or sent to a provider.
  pub messages_rejected_iff :
      (client_key : Text) (body : Option Text) (d : Database) (w : World)
      → let s = handle_messages decode encode render raw up keys_of cfg client_key body d w in
        let o = body >>= anthropic_body_to_request decode raw in
        ((status_of s.response ≡ 400) ↔ (o ≡ none)) × (o ≡ none → IsUntouched d w s)
  unfolding handle_messages bad_request status_of
  messages_rejected_iff client_key none d w = ((λ h. refl, λ h. refl), λ h. (refl, refl, refl))
  messages_rejected_iff client_key (some body) d w =
      converted_iff false client_key (anthropic_body_to_request decode raw body) d w

  forward-kind :
      (openai_out : Bool) (client_key : Text) (req : AnthropicRequest) (d : Database) (w : World)
      → let s = forward decode encode render raw up keys_of cfg openai_out client_key req d w in
        (buffered decode encode render (proxy_request openai_out client_key req) ≡ true
          → IsDocument s.response)
        × (buffered decode encode render (proxy_request openai_out client_key req) ≡ false
            → IsStreamed s.response)
  unfolding proxied
  forward-kind openai_out client_key req d w =
      proxy-kind decode encode render up keys_of cfg (proxy_request openai_out client_key req) d w

  Kinds : Bool → Served → Type 0
  Kinds stream s =
      (stream ≡ false → IsDocument s.response) × (stream ≡ true → IsStreamed s.response)

  converted-Kinds :
      (client_key : Text) (o : Option AnthropicRequest) (stream : Bool) (req : AnthropicRequest)
      (d : Database) (w : World)
      → o ≡ some req
      → req.non_streaming ≡ not stream
      → Kinds stream (converted decode encode render raw up keys_of cfg false client_key o d w)
  unfolding Kinds
  converted-Kinds client_key o stream req d w h n = rw h (
    (λ e. (forward-kind false client_key req d w).0 (rw (n, e) refl)),
    (λ e. (forward-kind false client_key req d w).1 (rw (n, e) refl)),
  )

  -- A client of /v1/messages that asks for a stream is never answered by a message document, and one
  -- that does not is never answered by a stream.
  pub messages_kind :
      (client_key body : Text) (v : Json) (r : AnthropicRequest) (d : Database) (w : World)
      → decode body ≡ some v
      → request_of raw v ≡ some r
      → let s =
          handle_messages decode encode render raw up keys_of cfg client_key (some body) d w in
        (r.stream ≡ false → IsDocument s.response) × (r.stream ≡ true → IsStreamed s.response)
  unfolding handle_messages anthropic_body_to_request Kinds
  messages_kind client_key body v r d w h k =
      converted-Kinds client_key (anthropic_body_to_request decode raw body) r.stream
        (normalised body r) d w (rw (h, k) refl) refl

  -- POST /v1/chat/completions answers 400 exactly when the body cannot be read or does not decode, and
  -- then leaves no trace; any other client of it, also one that asks for no stream, is answered by a
  -- stream or an error.
  pub chat_completions_kind :
      (client_key : Text) (body : Option Text) (d : Database) (w : World)
      → let s =
          handle_chat_completions decode encode render raw up keys_of cfg client_key body d w in
        let o = body >>= openai_to_anthropic decode in
        ((status_of s.response ≡ 400) ↔ (o ≡ none))
        × (o ≡ none → IsUntouched d w s)
        × IsStreamed s.response
  unfolding handle_chat_completions bad_request status_of
  chat_completions_kind client_key none d w =
      ((λ h. refl, λ h. refl), (λ h. (refl, refl, refl)), tt)
  chat_completions_kind client_key (some body) d w =
      let (i, u) = converted_iff true client_key (openai_to_anthropic decode body) d w in
      (i, u, streamed (openai_to_anthropic decode body))
    where
      either : (b : Bool) → (if b then false else false) ≡ false
      either true = refl
      either false = refl

      streamed :
          (o : Option AnthropicRequest)
          → IsStreamed
              (converted decode encode render raw up keys_of cfg true client_key o d w).response
      streamed none = tt
      streamed (some req) = (forward-kind true client_key req d w).1 (either req.non_streaming)
