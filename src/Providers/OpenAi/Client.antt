-- ===== src/Providers/OpenAi/Client.antt =====
-- providers/openai.go, Stream, StreamWithResponseHeaderTimeout and stream: the status of the response
-- and the loop over the lines of its body. A read that fails yields no bytes. A panic is `none`.
pub mod Failures
use claude_code_router.Common.{
  ℕ, suc, Text, codes, text_eq, cut_prefix, trim_space, Bool, true, false, not, ◌&&◌, leb, ltb,
  ◌==◌, if◌then◌else◌, List, [], ◌∷◌, map, Option, none, some, flatten,
}
use claude_code_router.Json.{Json}
use claude_code_router.Json.Decode.{str_field, obj_field, top, ◌>>=◌}
use claude_code_router.Providers.Errors.{
  Error, plain, wrapped, sentinel, upstream, rate_limit_error, connection_error,
  attempt_timeout_error, model_unavailable_error, context_exceeded_error,
}
use claude_code_router.Providers.Http.{
  Body, Response, Exchange, not_built, no_response, responded, Streamed, refused, scan, err_at,
}
use claude_code_router.Providers.OpenAi.{Event, Stream, initial, on_chunk, stop_message}
use claude_code_router.Providers.OpenAi.Decode.{chunk_of}

-- How the loop ends: the stream's variables, and the error that it returns at once.
pub record Ended : Type 0 where
  pub stream : Stream
  pub error : Option Error

-- What a line of the body is to the loop.
pub data Data : Type 0 where
  ignored done : Data
  document : Text → Data

document_or_done : Text → Data
document_or_done s = if text_eq s (codes "[DONE]") then done else document s

pub data_of : Option Text → Data
unfolding document_or_done
data_of none = ignored
data_of (some rest) = document_or_done (trim_space rest)

abbrev stop_now : Stream → Stream
stop_now s = stop_message s.message_stop_sent s

-- The end of stream, after the loop.
pub after_loop : Option Text → Stream → Ended
unfolding stop_message
after_loop (some e) s = record {
  stream = s;
  error = some (wrapped (codes "openai: read stream") (plain e));
}
after_loop none s =
    if s.stream_ended && not s.message_stop_sent
    then record { stream = stop_now s; error = none }
    else if s.stream_started && not s.message_stop_sent
    then record {
      stream = s;
      error = some (plain (codes "openai: stream ended before finish_reason or [DONE]"));
    }
    else record { stream = s; error = none }

module _ (decode : Text → Option Json) (model_id : Text) where
  -- A document that does not decode into a chunk is skipped.
  pub on_document : Text → Stream → Option Stream
  on_document d s = elim (decode d >>= chunk_of) [ none ↦ some s | some k ↦ on_chunk model_id k s ]

  -- The body of the loop for a line: `early` is scanner.Err at that line, which is read after the
  -- sentinel's break, and `later` what comes after the line.
  pub dispatch : Data → (early : Option Text) → Stream → (Stream → Option Ended) → Option Ended
  unfolding on_document after_loop stop_message
  dispatch ignored early s later = later s
  dispatch done early s later = some (after_loop early (stop_now s))
  dispatch (document d) early s later = elim (on_document d s) [ none ↦ none | some s' ↦ later s' ]

  -- The loop over the lines from number `i` on.
  pub read_lines :
      (ℕ → Bool) → (ℕ → Option Text) → ℕ → List Text → Option Text → Stream → Option Ended
  unfolding dispatch data_of after_loop
  read_lines gone early i [] failure s = some (after_loop failure s)
  read_lines gone early i (l ∷ ls) failure s =
      let rest =
        dispatch (data_of (cut_prefix (codes "data:") l)) (early i) s
          (read_lines gone early (suc i) ls failure) in
      if gone i
      then some (record { stream = s; error = some (plain (codes "context canceled")) })
      else rest

  -- The buffer that the scanner is given.
  abbrev max_token : ℕ
  max_token = 1_048_576

  pub read_body : Body → Option Ended
  unfolding read_lines
  read_body b =
      let (ls, failure) = scan max_token b in
      read_lines b.cancelled (err_at b) 0 ls failure (initial model_id)

error_message : Json → Option Text
error_message v = do fs ← top v; e ← obj_field (codes "error") fs; str_field (codes "message") e

positive_limits : Option (ℕ × ℕ) → Option (ℕ × ℕ)
positive_limits none = none
positive_limits (some (limit, input)) =
    if ltb 0 limit && ltb 0 input then some (limit, input) else none

-- `find_limits` yields the two numbers that contextExceededRe finds, where they fit an int.
pub parse_context_length_error :
    (Text → Option Json) → (Text → Option (ℕ × ℕ)) → Text → Option (ℕ × ℕ)
unfolding error_message positive_limits
parse_context_length_error decode find_limits body =
    positive_limits (decode body >>= error_message >>= find_limits)

module _ (decode : Text → Option Json) (find_limits : Text → Option (ℕ × ℕ))
    (retry_after : Text → ℕ) (render : Event → Text) (model_id : Text) (timeout : ℕ) where
  pub streamed : Ended → Streamed
  streamed e = record {
    input_tokens = e.stream.input_tokens;
    output_tokens = e.stream.output_tokens;
    error = e.error;
    written = flatten (map render e.stream.out);
  }

  -- A response that is neither 200, 410, 429 nor above 499.
  pub unexpected : Response → Streamed
  unfolding parse_context_length_error
  unexpected r =
      if r.status == 400
      then elim (parse_context_length_error decode find_limits r.body.bytes) [
        | some (limit, input) ↦ refused (context_exceeded_error limit input)
        | none ↦ refused (plain (codes "openai: unexpected status"))
      ]
      else refused (plain (codes "openai: unexpected status"))

  abbrev streamed_of : Option Ended → Option Streamed
  streamed_of none = none
  streamed_of (some e) = some (streamed e)

  pub on_response : Response → Option Streamed
  unfolding read_body unexpected streamed
  on_response r =
      let streaming = streamed_of (read_body decode model_id r.body) in
      if r.status == 429
      then some (refused (rate_limit_error (retry_after r.retry_after)))
      else if leb 500 r.status
      then some (refused (sentinel upstream))
      else if r.status == 410
      then some (refused (model_unavailable_error r.status r.body.bytes))
      else if r.status == 200
      then streaming
      else some (unexpected r)

  unfoldable pub stream : Exchange → Option Streamed
  unfolding on_response
  stream (not_built e) = some (refused (plain e))
  stream (no_response true timed_out e) =
      some (refused (wrapped (codes "openai: do request") (plain e)))
  stream (no_response false true e) = some (refused (attempt_timeout_error timeout))
  stream (no_response false false e) =
      some (refused (wrapped (codes "openai: do request") (connection_error (plain e))))
  stream (responded r) = on_response r
