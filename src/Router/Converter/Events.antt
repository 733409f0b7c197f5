-- ===== src/Router/Converter/Events.antt =====
-- What a stream of converted events looks like: one role, and tool calls numbered in order.
use claude_code_router.Common.{
  ℕ, ◌+◌, ◌<◌, ◌≡◌, Text, codes, text_eq, if◌then◌else◌, List, [], ◌∷◌, Option, none, some,
  Bool-cases, inl, inr, arith, All, Option-cases,
}
use claude_code_router.Json.{ℤ, Json, same_int}
use claude_code_router.Events.{Line, event, data_, blank, other, classify}
use claude_code_router.Router.BlockEvents.{BlockStart, BlockDelta}
use claude_code_router.Router.OpenAiChunks.{Emitted, chunk, done}
use claude_code_router.Router.Converter.{
  State, Event, message_start, content_block_start, content_block_delta, message_delta,
  message_stop, unknown, convert_event, flush, process, process_line, emit_role, start_tool,
  delta_chunk, arguments_delta,
}

-- Every tool call that a block refers to has been counted.
abbrev pub IsNumbered : State → Type 0
IsNumbered c = (i : ℤ) (t : ℕ) → c.block_tool_idx i ≡ some t → t < c.tool_call_count

-- The tool calls in a chunk have indices below `n`.
abbrev pub Below : ℕ → Option Emitted → Type 0
Below n none = Unit
Below n (some done) = Unit
Below n (some (chunk k)) = All (λ t. t.index < n) k.delta.tool_calls

start_tool-IsNumbered :
    (b : BlockStart) (c : State)
    → IsNumbered c
    → IsNumbered (start_tool b c).0 × Below (start_tool b c).0.tool_call_count (start_tool b c).1
unfolding start_tool
start_tool-IsNumbered b c h = elim (Bool-cases (text_eq b.type (codes "tool_use"))) [
  | inl e ↦ rw e ((λ i t q. numbered i t q), omega arith)
  | inr e ↦ rw e (h, tt)
]
  where
    numbered :
        (i : ℤ) (t : ℕ)
        → (if same_int b.index i then some c.tool_call_count else c.block_tool_idx i) ≡ some t
        → t < c.tool_call_count + 1
    numbered i t q = ground (arith, h i t)

arguments_delta-Below :
    (d : BlockDelta) (c : State)
    → IsNumbered c
    → Below c.tool_call_count (arguments_delta d c (c.block_tool_idx d.index))
unfolding arguments_delta
arguments_delta-Below d c h = elim (Option-cases (c.block_tool_idx d.index)) [
  | inl e ↦ rw (e, arguments_delta) tt
  | inr (t, e) ↦ elim (Bool-cases (text_eq d.partial_json [])) [
    | inl q ↦ rw (e, arguments_delta, q) tt
    | inr q ↦ rw (e, arguments_delta, q) (h d.index t e, tt)
  ]
]

delta_chunk-Below :
    (d : BlockDelta) (c : State) → IsNumbered c → Below c.tool_call_count (delta_chunk d c)
unfolding delta_chunk
delta_chunk-Below d c h = elim (Bool-cases (text_eq d.type (codes "text_delta"))) [
  | inl a ↦ rw a tt
  | inr a ↦ elim (Bool-cases (text_eq d.type (codes "thinking_delta"))) [
    | inl b ↦ elim (Bool-cases (text_eq d.thinking [])) [
      | inl e ↦ rw (a, b, e) tt
      | inr e ↦ rw (a, b, e) tt
    ]
    | inr b ↦ elim (Bool-cases (text_eq d.type (codes "input_json_delta"))) [
      | inl e ↦ rw (a, b, e) (arguments_delta-Below d c h)
      | inr e ↦ rw (a, b, e) tt
    ]
  ]
]

emit_role-IsNumbered :
    (c : State)
    → IsNumbered c
    → IsNumbered (emit_role c).0 × Below (emit_role c).0.tool_call_count (emit_role c).1
unfolding emit_role
emit_role-IsNumbered c h = elim (Bool-cases c.emitted_role) [
  | inl e ↦ rw e (h, tt)
  | inr e ↦ rw e (h, tt)
]

convert_event-IsNumbered :
    (e : Event) (c : State)
    → IsNumbered c
    → IsNumbered (convert_event e c).0
      × Below (convert_event e c).0.tool_call_count (convert_event e c).1
unfolding convert_event
convert_event-IsNumbered (message_start none) c h = emit_role-IsNumbered c h
convert_event-IsNumbered (message_start (some m)) c h = emit_role-IsNumbered _ h
convert_event-IsNumbered (content_block_start none) c h = (h, tt)
convert_event-IsNumbered (content_block_start (some b)) c h = start_tool-IsNumbered b c h
convert_event-IsNumbered (content_block_delta none) c h = (h, tt)
convert_event-IsNumbered (content_block_delta (some d)) c h = (h, delta_chunk-Below d c h)
convert_event-IsNumbered (message_delta none) c h = (h, tt)
convert_event-IsNumbered (message_delta (some d)) c h = (h, tt)
convert_event-IsNumbered message_stop c h = (h, tt)
convert_event-IsNumbered unknown c h = (h, tt)

flush-IsNumbered :
    (decode : Text → Option Json) (name : Text) (ds : List Text) (c : State)
    → IsNumbered c
    → IsNumbered (flush decode name ds c).0
      × Below (flush decode name ds c).0.tool_call_count (flush decode name ds c).1
unfolding flush
flush-IsNumbered decode [] ds c h = (h, tt)
flush-IsNumbered decode (b ∷ name) [] c h = (h, tt)
flush-IsNumbered decode (b ∷ name) (d ∷ ds) c h = convert_event-IsNumbered _ c h

process-IsNumbered :
    (decode : Text → Option Json) (line : Line) (c : State)
    → IsNumbered c
    → IsNumbered (process decode line c).0
      × Below (process decode line c).0.tool_call_count (process decode line c).1
unfolding process
process-IsNumbered decode (event v) c h = (h, tt)
process-IsNumbered decode (data_ v) c h = (h, tt)
process-IsNumbered decode blank c h = flush-IsNumbered decode c.cur_event c.cur_data c h
process-IsNumbered decode other c h = (h, tt)

-- From a state whose blocks refer to counted tool calls, any line leads to such a state, and the
-- chunk that the line writes names only tool calls that have been counted.
pub process_line-IsNumbered :
    (decode : Text → Option Json) (line : Text) (c : State)
    → IsNumbered c
    → IsNumbered (process_line decode line c).0
      × Below (process_line decode line c).0.tool_call_count (process_line decode line c).1
unfolding process_line
process_line-IsNumbered decode line c h = process-IsNumbered decode (classify line) c h
