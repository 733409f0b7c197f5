-- ===== src/Router/Proxy/Kinds.antt =====
-- Whether a client is answered by a stream of events or by one document.
use claude_code_router.Common.{
  ℕ, ◌≡◌, inl, inr, refl, Text, Bool, true, false, List, [], ◌∷◌, Option, none, some, Bool-cases,
}
use claude_code_router.Json.{Json}
use claude_code_router.Config.Types.{Config}
use claude_code_router.Db.{Database}
use claude_code_router.Providers.Errors.{as_context_exceeded}
use claude_code_router.Router.OpenAiChunks.{Emitted}
use claude_code_router.Router.Upstream.{Upstream, World}
use claude_code_router.Router.Chain.{Result, routed, failed}
use claude_code_router.Router.Proxy.{
  Request, Response, error_response, message_response, stream_response, proxy, finish, respond,
  buffered, lost, refuse_stream, refuse_message, passed_on,
}

abbrev pub IsDocument : Response → Type 0
IsDocument (stream_response t) = ⊥
IsDocument _ = Unit

abbrev pub IsStreamed : Response → Type 0
IsStreamed (message_response t) = ⊥
IsStreamed _ = Unit

-- Any answer but a refusal by the handler has status 200 or 503.
abbrev pub IsSettled : Response → Type 0
IsSettled (error_response status t) = status ≡ 503
IsSettled _ = Unit

module _ (decode : Text → Option Json) (encode : Json → Text) (render : Emitted → Text) where
  respond-buffered :
      (r : Request) (res : Result) (w : World)
      → buffered decode encode render r ≡ true
      → IsDocument (respond decode encode render r res w)
  unfolding respond refuse_message
  respond-buffered r (routed f) w h = rw h tt
  respond-buffered r (failed e) w h = rw h (refused (as_context_exceeded e))
    where
      refused : (o : Option (ℕ × ℕ)) → IsDocument (refuse_message decode encode render o)
      refused none = tt
      refused (some l) = tt

  lost-IsStreamed : (sent : Text) → IsStreamed (lost decode encode render sent)
  unfolding lost
  lost-IsStreamed [] = tt
  lost-IsStreamed (b ∷ s) = tt

  refuse_stream-IsStreamed :
      (openai_out : Bool) (sent : Text) (o : Option (ℕ × ℕ))
      → IsStreamed (refuse_stream decode encode render openai_out sent o)
  unfolding refuse_stream
  refuse_stream-IsStreamed true sent o = lost-IsStreamed sent
  refuse_stream-IsStreamed false sent none = lost-IsStreamed sent
  refuse_stream-IsStreamed false sent (some l) = tt

  respond-streaming :
      (r : Request) (res : Result) (w : World)
      → buffered decode encode render r ≡ false
      → IsStreamed (respond decode encode render r res w)
  unfolding respond
  respond-streaming r (routed f) w h = rw h tt
  respond-streaming r (failed e) w h = rw h (
      refuse_stream-IsStreamed r.openai_out (passed_on decode encode render r.openai_out w.out)
        (as_context_exceeded e))

  pub proxy-kind :
      (up : Upstream) (keys_of : Text → List Text) (cfg : Config) (r : Request) (d : Database)
      (w : World)
      → (buffered decode encode render r ≡ true
          → IsDocument (proxy decode encode render up keys_of cfg r d w).response)
        × (buffered decode encode render r ≡ false
            → IsStreamed (proxy decode encode render up keys_of cfg r d w).response)
  unfolding proxy finish
  proxy-kind up keys_of cfg r d w = (respond-buffered r _ _, respond-streaming r _ _)

  lost-IsSettled : (sent : Text) → IsSettled (lost decode encode render sent)
  unfolding lost
  lost-IsSettled [] = refl
  lost-IsSettled (b ∷ s) = tt

  refuse_message-IsSettled :
      (o : Option (ℕ × ℕ)) → IsSettled (refuse_message decode encode render o)
  unfolding refuse_message
  refuse_message-IsSettled none = refl
  refuse_message-IsSettled (some l) = tt

  refuse_stream-IsSettled :
      (openai_out : Bool) (sent : Text) (o : Option (ℕ × ℕ))
      → IsSettled (refuse_stream decode encode render openai_out sent o)
  unfolding refuse_stream
  refuse_stream-IsSettled true sent o = lost-IsSettled sent
  refuse_stream-IsSettled false sent none = lost-IsSettled sent
  refuse_stream-IsSettled false sent (some l) = tt

  respond-IsSettled :
      (r : Request) (res : Result) (w : World) → IsSettled (respond decode encode render r res w)
  unfolding respond
  respond-IsSettled r (routed f) w = elim (Bool-cases (buffered decode encode render r)) [
    | inl y ↦ rw y tt
    | inr n ↦ rw n tt
  ]
  respond-IsSettled r (failed e) w = elim (Bool-cases (buffered decode encode render r)) [
    | inl y ↦ rw y (refuse_message-IsSettled (as_context_exceeded e))
    | inr n ↦ rw n (
        refuse_stream-IsSettled r.openai_out (passed_on decode encode render r.openai_out w.out)
          (as_context_exceeded e))
  ]

  pub proxy-IsSettled :
      (up : Upstream) (keys_of : Text → List Text) (cfg : Config) (r : Request) (d : Database)
      (w : World)
      → IsSettled (proxy decode encode render up keys_of cfg r d w).response
  unfolding proxy finish
  proxy-IsSettled up keys_of cfg r d w = respond-IsSettled r _ _
