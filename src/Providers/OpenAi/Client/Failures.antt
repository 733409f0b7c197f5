-- ===== src/Providers/OpenAi/Client/Failures.antt =====
-- What stream returns for any exchange with an OpenAI upstream.
use claude_code_router.Common.{
  ℕ, suc, ◌≡◌, refl, subst, Text, cut_prefix, Bool, true, false, not, ◌&&◌, leb, ◌==◌, List, [],
  ◌∷◌, Option, none, some, some_inj, Bool-cases, Option-cases, inl, inr, codes,
}
use claude_code_router.Json.{Json}
use claude_code_router.Providers.Errors.{Error, is}
use claude_code_router.Router.Upstream.{is_retryable}
use claude_code_router.Providers.Http.{
  Body, Response, Exchange, not_built, no_response, responded, Streamed, refused, scan, err_at,
}
use claude_code_router.Providers.Anthropic.Quiet.{
  IsQuiet, IsFinal, IsFinal-some, none-IsFinal, IsFinal-IsQuiet, refused-IsQuiet,
}
use claude_code_router.Providers.OpenAi.{initial, Event, Stream}
use claude_code_router.Providers.OpenAi.Client.{
  stop_now, max_token, streamed_of, Ended, Data, ignored, done, document, after_loop, on_document,
  dispatch, data_of, read_lines, read_body, parse_context_length_error, streamed, unexpected,
  on_response, stream,
}

after_loop-IsFinal : (failure : Option Text) (s : Stream) → IsFinal (after_loop failure s).error
unfolding after_loop is_retryable is
after_loop-IsFinal (some e) s = IsFinal-some _ refl
after_loop-IsFinal none s = elim (Bool-cases (s.stream_ended && not s.message_stop_sent)) [
  | inl y ↦ rw y none-IsFinal
  | inr n ↦ elim (Bool-cases (s.stream_started && not s.message_stop_sent)) [
    | inl y ↦ rw (n, y) (IsFinal-some _ refl)
    | inr m ↦ rw (n, m) none-IsFinal
  ]
]

module _ (decode : Text → Option Json) (model_id : Text) where
  dispatch-IsFinal :
      (d : Data) (early : Option Text) (s : Stream) (later : Stream → Option Ended) (r : Ended)
      → ((t : Stream) → later t ≡ some r → IsFinal r.error)
      → dispatch decode model_id d early s later ≡ some r
      → IsFinal r.error
  unfolding dispatch
  dispatch-IsFinal ignored early s later r h e = h s e
  dispatch-IsFinal done early s later r h e =
      subst (λ x. IsFinal x.error) (some_inj e) (after_loop-IsFinal early (stop_now s))
  dispatch-IsFinal (document d) early s later r h e =
      elim (Option-cases (on_document decode model_id d s)) [
        | inl n ↦ absurd (none-ne-some (rw (n, dispatch) at e))
        | inr (t, q) ↦ h t (rw (q, dispatch) at e)
      ]
    where
      none-ne-some : none ≡ some r → ⊥
      none-ne-some p = cc

  lines-IsFinal :
      (gone : ℕ → Bool) (early : ℕ → Option Text) (i : ℕ) (ls : List Text) (failure : Option Text)
      (s : Stream) (r : Ended)
      → read_lines decode model_id gone early i ls failure s ≡ some r
      → IsFinal r.error
  unfolding read_lines is_retryable is
  lines-IsFinal gone early i [] failure s r e =
      subst (λ x. IsFinal x.error) (some_inj e) (after_loop-IsFinal failure s)
  lines-IsFinal gone early i (l ∷ ls) failure s r e = elim (Bool-cases (gone i)) [
    | inl y ↦ subst (λ x. IsFinal x.error) (some_inj (rw y at e)) (IsFinal-some _ refl)
    | inr n ↦
        dispatch-IsFinal (data_of (cut_prefix (codes "data:") l)) (early i) s _ r
          (λ t q. lines-IsFinal gone early (suc i) ls failure t r q) (rw n at e)
  ]

module _ (decode : Text → Option Json) (find_limits : Text → Option (ℕ × ℕ))
    (retry_after : Text → ℕ) (render : Event → Text) (model_id : Text) (timeout : ℕ) where
  unexpected-IsQuiet :
      (r : Response) → IsQuiet (unexpected decode find_limits retry_after render model_id timeout r)
  unfolding unexpected
  unexpected-IsQuiet r = elim (Bool-cases (r.status == 400)) [
    | inr n ↦ rw n (refused-IsQuiet _)
    | inl y ↦ elim (Option-cases (parse_context_length_error decode find_limits r.body.bytes)) [
      | inl q ↦ rw (y, q) (refused-IsQuiet _)
      | inr ((a, b), q) ↦ rw (y, q) (refused-IsQuiet _)
    ]
  ]

  body-IsFinal : (b : Body) (e : Ended) → read_body decode model_id b ≡ some e → IsFinal e.error
  unfolding read_body
  body-IsFinal b e q =
      lines-IsFinal decode model_id b.cancelled (err_at b) 0 (scan (max_token decode model_id) b).0
        (scan (max_token decode model_id) b).1 (initial model_id) e q

  body-IsQuiet :
      (o : Option Ended) (r : Streamed)
      → ((e : Ended) → o ≡ some e → IsFinal e.error)
      → streamed_of decode find_limits retry_after render model_id timeout o ≡ some r
      → IsQuiet r
  unfolding streamed
  body-IsQuiet none r f q = absurd (none-ne-some q)
    where
      none-ne-some : none ≡ some r → ⊥
      none-ne-some p = cc
  body-IsQuiet (some e) r f q = subst IsQuiet (some_inj q) (
      IsFinal-IsQuiet (streamed decode find_limits retry_after render model_id timeout e)
        (f e refl))

  refusal-IsQuiet : (e : Error) (r : Streamed) → some (refused e) ≡ some r → IsQuiet r
  refusal-IsQuiet e r q = subst IsQuiet (some_inj q) (refused-IsQuiet e)

  response-IsQuiet :
      (x : Response) (r : Streamed)
      → on_response decode find_limits retry_after render model_id timeout x ≡ some r
      → IsQuiet r
  unfolding on_response
  response-IsQuiet x r q = elim (Bool-cases (x.status == 429)) [
    | inl y ↦ refusal-IsQuiet _ r (rw y at q)
    | inr n ↦ elim (Bool-cases (leb 500 x.status)) [
      | inl y ↦ refusal-IsQuiet _ r (rw (n, y) at q)
      | inr m ↦ elim (Bool-cases (x.status == 410)) [
        | inl y ↦ refusal-IsQuiet _ r (rw (n, m, y) at q)
        | inr k ↦ elim (Bool-cases (x.status == 200)) [
          | inl y ↦
              body-IsQuiet (read_body decode model_id x.body) r (body-IsFinal x.body)
                (rw (n, m, k, y) at q)
          | inr j ↦ subst IsQuiet (some_inj (rw (n, m, k, j) at q)) (unexpected-IsQuiet x)
        ]
      ]
    ]
  ]

  -- Whatever comes of the exchange with an OpenAI upstream, where the process does not panic, a result
  -- whose error is retryable has written nothing.
  pub openai_stream-IsQuiet :
      (x : Exchange) (r : Streamed)
      → stream decode find_limits retry_after render model_id timeout x ≡ some r
      → IsQuiet r
  unfolding stream
  openai_stream-IsQuiet (not_built e) r q = refusal-IsQuiet _ r q
  openai_stream-IsQuiet (no_response true timed_out e) r q = refusal-IsQuiet _ r q
  openai_stream-IsQuiet (no_response false true e) r q = refusal-IsQuiet _ r q
  openai_stream-IsQuiet (no_response false false e) r q = refusal-IsQuiet _ r q
  openai_stream-IsQuiet (responded x) r q = response-IsQuiet x r q
