-- ===== src/Router/Proxy/Replies.antt =====
-- What a client gets, and what is recorded of its request.
use claude_code_router.Common.{
  ◌++◌, ◌≢◌, arith, ℕ, ◌≡◌, ◌⊎◌, ◌↔◌, refl, ap, inl, inr, Text, Bool, true, false, List, [], ◌∷◌,
  Option, none, some, Bool-cases,
}
use claude_code_router.Json.{Json}
use claude_code_router.Config.Types.{Config}
use claude_code_router.Db.{Database, write_usage}
use claude_code_router.Providers.Errors.{Error, as_context_exceeded}
use claude_code_router.Router.Upstream.{Call, Upstream, World, IsSilent, is_retryable}
use claude_code_router.Router.Chain.{Result, routed, failed}
use claude_code_router.Router.Chain.Output.{Wrote, fallback_chain-Wrote}
use claude_code_router.Router.OpenAiChunks.{Emitted}
use claude_code_router.Router.Context.{synthesize_context_exceeded_sse}
use claude_code_router.Router.Proxy.{
  Response, synthesize_context_exceeded_sse, lost_connection, exhausted_text, error_response,
  signalled, Request, stream_response, status_of, Handled, usage_row, buffered, passed_on, respond,
  event_of, record_usage, finish, proxy, lost, refuse_stream, refuse_message,
}

-- The client has the bytes of the newest call, which succeeded, and a row is written.
abbrev pub Delivered : Upstream → Database → Handled → Type 0
Delivered up d s =
    (h : List Call) × (c : Call) × (s.world.calls ≡ c ∷ h)
    × ((up h c).error ≡ none)
    × (s.response ≡ stream_response (up h c).written)
    × (s.database ≡ write_usage (usage_row s.event) d)

-- What the client of a stream that fails after `sent` gets, and the status of the live event: an error
-- document where nothing was sent, or the sent bytes and an error event; but for a context that was
-- exceeded, the sent bytes and a synthesised message with its limit and input.
abbrev pub Refused : (Json → Text) → Option (ℕ × ℕ) → Text → Response → (status : ℕ) → Type 0
Refused encode none sent response status =
    ((sent ≡ []) × (response ≡ error_response 503 exhausted_text) × (status ≡ 503))
    ⊎ ((sent ≢ []) × (response ≡ stream_response (sent ++ lost_connection)) × (status ≡ 503))
Refused encode (some (limit, input)) sent response status =
    (response ≡ stream_response (sent ++ synthesize_context_exceeded_sse encode input limit))
    × (status ≡ 200)

-- No row is written, and no call has written a byte, or the newest has, with an error that is not
-- retryable; the client has these bytes and the end of a stream that is refused for that error.
abbrev pub Withheld : (Json → Text) → Upstream → Database → Handled → Type 0
Withheld encode up d s =
    (s.database ≡ d)
    × (((s.world.out ≡ [])
          × ((limits : Option (ℕ × ℕ)) × Refused encode limits [] s.response s.event.status))
        ⊎ ((h : List Call) × (c : Call) × (e : Error) × (s.world.calls ≡ c ∷ h)
            × ((up h c).error ≡ some e)
            × (is_retryable e ≡ false)
            × (s.world.out ≡ (up h c).written)
            × Refused encode (as_context_exceeded e) (up h c).written s.response s.event.status))

module _ (decode : Text → Option Json) (encode : Json → Text) (render : Emitted → Text) where
  refuse_stream-Refused :
      (limits : Option (ℕ × ℕ)) (sent : Text)
      → Refused encode limits sent
          (refuse_stream decode encode render false sent limits)
          (signalled decode encode render false limits)
  unfolding refuse_stream lost
  refuse_stream-Refused none [] = inl (refl, refl, refl)
  refuse_stream-Refused none (b ∷ sent) = inr ((λ e. cc), refl, refl)
  refuse_stream-Refused (some (limit, input)) sent = (refl, refl)

  finish-Refused :
      (r : Request) (start : ℕ) (d : Database) (x : Error) (v : World) (sent : Text)
      → buffered decode encode render r ≡ false
      → r.openai_out ≡ false
      → v.out ≡ sent
      → let s = finish decode encode render r start d (failed x, v) in
        Refused encode (as_context_exceeded x) sent s.response s.event.status
  unfolding finish respond event_of passed_on
  finish-Refused r start d x v sent b o q =
      rw (b, o) (rw q (refuse_stream-Refused (as_context_exceeded x) sent))

  finish-replies :
      (up : Upstream) (r : Request) (start : ℕ) (d : Database) (res : Result) (v : World)
      → buffered decode encode render r ≡ false
      → r.openai_out ≡ false
      → Wrote up [] res v
      → Delivered up d (finish decode encode render r start d (res, v))
        ⊎ Withheld encode up d (finish decode encode render r start d (res, v))
  unfolding finish respond record_usage passed_on
  finish-replies up r start d (routed f) v b o (h, c, p, e, q) =
      inl (h, c, p, e, rw (b, o) (ap stream_response q), refl)
  finish-replies up r start d (failed x) v b o (inl q) =
      inr (refl, inl (q, (as_context_exceeded x, finish-Refused r start d x v [] b o q)))
  finish-replies up r start d (failed x) v b o (inr (h, c, p, e, n, q)) =
      inr (refl, inr (h, c, x, p, e, n, q, finish-Refused r start d x v _ b o q))

  -- Where attempts that fail with a retryable error write nothing, a client that asked for an Anthropic
  -- stream gets exactly the bytes of the newest call, which succeeded, and a usage row with the fields
  -- of the live event is written. Or no row is written, and the providers wrote nothing, but the bytes of
  -- the newest call where its error is not retryable; then the client gets status 503 and an error
  -- document where nothing was written, else these bytes and an error event, the live event saying 503
  -- for both; or, the live event saying 200, these bytes and the synthesised message of an exceeded
  -- context.
  pub proxy_streams_one_call :
      (up : Upstream) (keys_of : Text → List Text) (cfg : Config) (r : Request) (d : Database)
      (w : World)
      → IsSilent up
      → r.non_streaming ≡ false
      → r.openai_out ≡ false
      → let s = proxy decode encode render up keys_of cfg r d w in
        Delivered up d s ⊎ Withheld encode up d s
  unfolding proxy
  proxy_streams_one_call up keys_of cfg r d w silent n o =
      finish-replies up r w.now d _ _ (rw n refl) o
        (fallback_chain-Wrote up keys_of cfg r.model 0 (record w { out = [] }) silent)

  both_fine : (m n : ℕ) (P : Type 0) → m ≡ 200 → n ≡ 200 → (m ≡ 503) ↔ ((n ≡ 503) × P)
  both_fine m n P p q = ((λ e. absurd (omega (arith, p, e))), (λ e. absurd (omega (arith, q, e.0))))

  lost_iff :
      (sent : Text)
      → (status_of (lost decode encode render sent) ≡ 503)
        ↔ ((signalled decode encode render true none ≡ 503) × ((false ≡ true) ⊎ (sent ≡ [])))
  unfolding lost status_of
  lost_iff [] = ((λ e. (refl, inr refl)), (λ e. refl))
  lost_iff (b ∷ sent) = ((λ e. absurd (omega (arith, e))), (λ e. absurd (neither e.1)))
    where
      neither : (false ≡ true) ⊎ (b ∷ sent ≡ []) → ⊥
      neither (inl e) = cc
      neither (inr e) = cc

  message_iff :
      (limits : Option (ℕ × ℕ)) (P : Type 0)
      → (status_of (refuse_message decode encode render limits) ≡ 503)
        ↔ ((signalled decode encode render false limits ≡ 503) × ((true ≡ true) ⊎ P))
  unfolding refuse_message status_of
  message_iff none P = ((λ e. (refl, inl refl)), (λ e. refl))
  message_iff (some l) P = both_fine 200 200 _ refl refl

  stream_iff :
      (openai_out : Bool) (sent : Text) (limits : Option (ℕ × ℕ))
      → (status_of (refuse_stream decode encode render openai_out sent limits) ≡ 503) ↔ (
          (signalled decode encode render openai_out limits ≡ 503) × ((false ≡ true) ⊎ (sent ≡ [])))
  unfolding refuse_stream status_of
  stream_iff true sent limits = lost_iff sent
  stream_iff false sent none = lost_iff sent
  stream_iff false sent (some l) = both_fine 200 200 _ refl refl

  finish-status :
      (r : Request) (start : ℕ) (d : Database) (res : Result) (v : World)
      → (status_of (respond decode encode render r res v) ≡ 503) ↔ (
          ((event_of decode encode render r start res v).status ≡ 503)
          × ((buffered decode encode render r ≡ true)
              ⊎ (passed_on decode encode render r.openai_out v.out ≡ [])))
  unfolding respond event_of status_of
  finish-status r start d (routed f) v = elim (Bool-cases (buffered decode encode render r)) [
    | inl y ↦ rw y (both_fine 200 200 _ refl refl)
    | inr n ↦ rw n (both_fine 200 200 _ refl refl)
  ]
  finish-status r start d (failed x) v = elim (Bool-cases (buffered decode encode render r)) [
    | inl y ↦ rw y (message_iff (as_context_exceeded x) _)
    | inr n ↦ rw n (
        stream_iff r.openai_out (passed_on decode encode render r.openai_out v.out)
          (as_context_exceeded x))
  ]

  -- A client gets status 503 exactly when the live event says 503 and the answer is a single document
  -- or no byte of the stream was passed on before the failure.
  pub proxy_status_iff :
      (up : Upstream) (keys_of : Text → List Text) (cfg : Config) (r : Request) (d : Database)
      (w : World)
      → let s = proxy decode encode render up keys_of cfg r d w in
        (status_of s.response ≡ 503) ↔ (
          (s.event.status ≡ 503)
          × ((buffered decode encode render r ≡ true)
              ⊎ (passed_on decode encode render r.openai_out s.world.out ≡ [])))
  unfolding proxy finish
  proxy_status_iff up keys_of cfg r d w = finish-status r w.now d _ _
