-- ===== src/Providers/Anthropic/Quiet.antt =====
-- What Stream returns and writes for any exchange.
use claude_code_router.Common.{
  ℕ, suc, ◌≡◌, refl, sym, ap, ◌∙◌, Text, Bool, true, false, leb, ◌==◌, List, [], ◌∷◌, Option, none,
  some, some_inj, Bool-cases, inl, inr,
}
use claude_code_router.Json.{Json}
use claude_code_router.Providers.Errors.{Error, is}
use claude_code_router.Router.Upstream.{is_retryable}
use claude_code_router.Providers.Http.{
  Body, Response, Exchange, not_built, no_response, responded, Streamed, refused, scan,
}
use claude_code_router.Providers.Anthropic.{
  max_token, new_reader, Reader, streamed, read_lines, read_body, on_response, stream,
}

-- What is written goes with an error that is not retryable, or with none.
abbrev pub IsQuiet : Streamed → Type 0
IsQuiet r = (e : Error) → r.error ≡ some e → is_retryable e ≡ true → r.written ≡ []

-- The error of a result is not retryable.
abbrev pub IsFinal : Option Error → Type 0
IsFinal o = (e : Error) → o ≡ some e → is_retryable e ≡ false

pub IsFinal-some : (e : Error) → is_retryable e ≡ false → IsFinal (some e)
IsFinal-some e h f q = sym (ap is_retryable (some_inj q)) ∙ h

pub none-IsFinal : IsFinal none
none-IsFinal e q = absurd (none-ne-some q)
  where
    none-ne-some : none ≡ some e → ⊥
    none-ne-some p = cc

pub IsFinal-IsQuiet : (r : Streamed) → IsFinal r.error → IsQuiet r
IsFinal-IsQuiet r f e q h = absurd (true-ne-false (sym h ∙ f e q))
  where
    true-ne-false : true ≡ false → ⊥
    true-ne-false p = cc

read_lines-IsFinal :
    (decode : Text → Option Json) (gone : ℕ → Bool) (i : ℕ) (ls : List Text) (failure : Option Text)
    (r : Reader)
    → IsFinal (read_lines decode gone i ls failure r).error
unfolding read_lines streamed is_retryable is
read_lines-IsFinal decode gone i [] none r = none-IsFinal
read_lines-IsFinal decode gone i [] (some e) r = IsFinal-some _ refl
read_lines-IsFinal decode gone i (l ∷ ls) failure r = elim (Bool-cases (gone i)) [
  | inl y ↦ rw y (IsFinal-some _ refl)
  | inr n ↦ rw n (read_lines-IsFinal decode gone (suc i) ls failure _)
]

pub refused-IsQuiet : (e : Error) → IsQuiet (refused e)
unfolding refused
refused-IsQuiet e f q h = refl

read_body-IsQuiet : (decode : Text → Option Json) (b : Body) → IsQuiet (read_body decode b)
unfolding read_body
read_body-IsQuiet decode b =
    IsFinal-IsQuiet (read_body decode b)
      (read_lines-IsFinal decode b.cancelled 0 (scan max_token b).0 (scan max_token b).1 new_reader)

on_response-IsQuiet :
    (decode : Text → Option Json) (retry_after : Text → ℕ) (r : Response)
    → IsQuiet (on_response decode retry_after r)
unfolding on_response
on_response-IsQuiet decode retry_after r = elim (Bool-cases (r.status == 429)) [
  | inl y ↦ rw y (refused-IsQuiet _)
  | inr n ↦ elim (Bool-cases (leb 500 r.status)) [
    | inl y ↦ rw (n, y) (refused-IsQuiet _)
    | inr m ↦ elim (Bool-cases (r.status == 200)) [
      | inl y ↦ rw (n, m, y) (read_body-IsQuiet decode r.body)
      | inr k ↦ rw (n, m, k) (refused-IsQuiet _)
    ]
  ]
]

-- Whatever comes of the exchange with an Anthropic upstream, a result whose error is retryable has
-- written nothing.
pub anthropic_stream-IsQuiet :
    (decode : Text → Option Json) (retry_after : Text → ℕ) (x : Exchange)
    → IsQuiet (stream decode retry_after x)
unfolding stream
anthropic_stream-IsQuiet decode retry_after (not_built e) = refused-IsQuiet _
anthropic_stream-IsQuiet decode retry_after (no_response true timed_out e) = refused-IsQuiet _
anthropic_stream-IsQuiet decode retry_after (no_response false timed_out e) = refused-IsQuiet _
anthropic_stream-IsQuiet decode retry_after (responded r) = on_response-IsQuiet decode retry_after r
