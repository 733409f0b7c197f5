-- ===== src/Router/Context.antt =====
-- router/sse.go, synthesizeContextExceededSSE and synthesizeContextExceededMessage: the replies that
-- make a client compact its conversation. `encode` is json.Marshal, which writes the keys of a map in
-- their order.
use claude_code_router.Common.{
  ℕ, zero, suc, ◌+◌, ◌/◌, ◌%◌, Text, codes, ltb, if◌then◌else◌, [], ◌∷◌, ◌++◌,
}
use claude_code_router.Json.{pos, Json, null, int, str, arr, obj, nil, cons, Fields, end, field}

-- The decimal digits of a number, as %d writes it; a number has at most as many digits as its value
-- and one more.
digits_upto : ℕ → ℕ → Text
digits_upto zero n = []
digits_upto (suc fuel) n =
    let front = digits_upto fuel (n / 10) in
    if ltb n 10 then (n + 48) ∷ [] else front ++ (n % 10 + 48) ∷ []

pub decimal : ℕ → Text
unfolding digits_upto
decimal n = digits_upto (suc n) n

abbrev entry : Text → Json → Fields → Fields
entry k v fs = field k v fs

abbrev text : Text → Json
text s = str s

abbrev number : ℕ → Json
number n = int (pos n)

notice : (input limit : ℕ) → Text
notice input limit =
    codes "Context window exceeded ("
    ++ decimal input
    ++ codes " / "
    ++ decimal limit
    ++ codes " tokens). Please compact the conversation."

message_id : ℕ → Text
message_id input = codes "msg_ctx_" ++ decimal input

usage : (input output : ℕ) → Json
usage input output = obj (
    entry (codes "input_tokens") (number input) (entry (codes "output_tokens") (number output) end))

start_document : ℕ → Json
unfolding usage message_id
start_document input = obj (
    entry (codes "message")
      (obj (
        entry (codes "content") (arr nil) (
          entry (codes "id") (text (message_id input)) (
            entry (codes "model") (text (codes "proxy")) (
              entry (codes "role") (text (codes "assistant")) (
                entry (codes "stop_reason") null (
                  entry (codes "stop_sequence") null (
                    entry (codes "type") (text (codes "message"))
                      (entry (codes "usage") (usage input 0) end)))))))))
      (entry (codes "type") (text (codes "message_start")) end))

block_start_document : Json
block_start_document = obj (
    entry (codes "content_block")
      (obj (entry (codes "text") (text []) (entry (codes "type") (text (codes "text")) end)))
      (entry (codes "index") (number 0)
        (entry (codes "type") (text (codes "content_block_start")) end)))

text_delta_document : Text → Json
text_delta_document t = obj (
    entry (codes "delta")
      (obj (entry (codes "text") (text t) (entry (codes "type") (text (codes "text_delta")) end)))
      (entry (codes "index") (number 0)
        (entry (codes "type") (text (codes "content_block_delta")) end)))

block_stop_document : Json
block_stop_document = obj (
    entry (codes "index") (number 0) (entry (codes "type") (text (codes "content_block_stop")) end))

message_delta_document : Json
message_delta_document = obj (
    entry (codes "delta")
      (obj (
        entry (codes "stop_reason") (text (codes "max_tokens"))
          (entry (codes "stop_sequence") null end)))
      (entry (codes "type") (text (codes "message_delta"))
        (entry (codes "usage") (obj (entry (codes "output_tokens") (number 1) end)) end)))

-- One event, as fmt.Fprintf writes it.
pub sse_event : Text → Text → Text
sse_event name content = codes "event: " ++ name ++ codes "\ndata: " ++ content ++ codes "\n\n"

module _ (encode : Json → Text) where
  pub synthesize_context_exceeded_sse : (input limit : ℕ) → Text
  unfolding notice start_document block_start_document text_delta_document block_stop_document
      message_delta_document
  synthesize_context_exceeded_sse input limit =
      sse_event (codes "message_start") (encode (start_document input))
      ++ sse_event (codes "ping") (codes "{\"type\":\"ping\"}")
      ++ sse_event (codes "content_block_start") (encode block_start_document)
      ++ sse_event (codes "content_block_delta") (encode (text_delta_document (notice input limit)))
      ++ sse_event (codes "content_block_stop") (encode block_stop_document)
      ++ sse_event (codes "message_delta") (encode message_delta_document)
      ++ sse_event (codes "message_stop") (codes "{\"type\":\"message_stop\"}")

  pub synthesize_context_exceeded_message : (input limit : ℕ) → Text
  unfolding notice usage message_id
  synthesize_context_exceeded_message input limit = encode (
      obj (
        entry (codes "content")
          (arr (
            cons
              (obj (
                entry (codes "text") (text (notice input limit))
                  (entry (codes "type") (text (codes "text")) end)))
              nil))
          (entry (codes "id") (text (message_id input)) (
            entry (codes "model") (text (codes "proxy")) (
              entry (codes "role") (text (codes "assistant")) (
                entry (codes "stop_reason") (text (codes "max_tokens")) (
                  entry (codes "stop_sequence") null (
                    entry (codes "type") (text (codes "message"))
                      (entry (codes "usage") (usage input 1) end)))))))))
