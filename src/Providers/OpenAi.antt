-- ===== src/Providers/OpenAi.antt =====
-- providers/openai.go, the body of stream after a 200 response: OpenAI chunks in, Anthropic events
-- out. An event that writeAnthropicEvent writes is a value of `Event`; its errors are ignored there
-- and here. A negative index of a tool call makes the slice access panic: the step is `none`.
pub mod Decode
pub mod Protocol
pub mod Blocks
pub mod TextBlocks
pub mod Slots
pub mod Tools
pub mod Ending
pub mod Finish
pub mod Message
pub mod Client
use claude_code_router.Common.{
  ℕ, zero, suc, ◌+◌, ◌-◌, Text, codes, text_eq, Bool, true, false, ◌&&◌, not, leb, ltb,
  if◌then◌else◌, List, [], ◌∷◌, ◌++◌, Option, none, some, length, get_or,
}
use claude_code_router.Json.{ℤ, pos, negsuc}
use claude_code_router.Providers.Think.{ThinkFilter, Routed, process}
use Decode.{Chunk, Choice, ToolCall}

pub data Kind : Type 0 where
  thinking_block text_block : Kind
  tool_use_block : (id name : Text) → Kind

pub data DeltaKind : Type 0 where
  thinking_delta text_delta input_json_delta : DeltaKind

pub data Event : Type 0 where
  message_start : (id model : Text) → Event
  ping : Event
  content_block_start : ℕ → Kind → Event
  content_block_delta : ℕ → DeltaKind → Text → Event
  content_block_stop : ℕ → Event
  message_delta : (stop_reason : Text) (output_tokens : ℤ) → Event
  message_stop : Event

-- thinkingBlockIdx and textBlockIdx: -1, an index, and -2.
pub data Slot : Type 0 where
  unopened : Slot
  opened : ℕ → Slot
  closed : Slot

pub record Stream : Type 0 where
  pub input_tokens : ℤ
  pub output_tokens : ℤ
  pub message_id : Text
  pub stream_started : Bool
  pub stream_ended : Bool
  pub message_stop_sent : Bool
  pub next_block_idx : ℕ
  pub thinking : Slot
  pub text : Slot
  pub tool_slots : List (Option ℕ)
  pub filter : ThinkFilter
  pub out : List Event

unfoldable pub initial : Text → Stream
initial model_id = record {
  input_tokens = pos 0;
  output_tokens = pos 0;
  message_id = codes "msg_" ++ model_id;
  stream_started = false;
  stream_ended = false;
  message_stop_sent = false;
  next_block_idx = 0;
  thinking = unopened;
  text = unopened;
  tool_slots = [];
  filter = record { in_think = false; partial = [] };
  out = [];
}

abbrev emit : Event → Stream → Stream
emit e s = record s { out = s.out ++ e ∷ [] }

-- The write of emitThinkingDelta, once a closed or unopened slot is settled.
think_delta : Slot → Text → Stream → Stream
think_delta unopened content s = s
think_delta (opened i) content s = emit (content_block_delta i thinking_delta content) s
think_delta closed content s = s

open_thinking : Slot → Stream → Stream
open_thinking unopened s =
    emit (content_block_start s.next_block_idx thinking_block)
      (record s { thinking = opened s.next_block_idx; next_block_idx = s.next_block_idx + 1 })
open_thinking (opened i) s = s
open_thinking closed s = s

pub emit_thinking_delta : Text → Stream → Stream
unfolding think_delta open_thinking
emit_thinking_delta [] s = s
emit_thinking_delta (b ∷ content) s =
    let s' = open_thinking s.thinking s in think_delta s'.thinking (b ∷ content) s'

pub close_thinking : Slot → Stream → Stream
close_thinking unopened s = s
close_thinking (opened i) s = emit (content_block_stop i) (record s { thinking = closed })
close_thinking closed s = s

pub close_thinking_block : Stream → Stream
unfolding close_thinking
close_thinking_block s = close_thinking s.thinking s

open_text : Slot → Stream → Stream
unfolding close_thinking_block
open_text unopened s =
    let s' = close_thinking_block s in
    emit (content_block_start s'.next_block_idx text_block)
      (record s' { text = opened s'.next_block_idx; next_block_idx = s'.next_block_idx + 1 })
open_text (opened i) s = s
open_text closed s = s

text_delta_to : Slot → Text → Stream → Stream
text_delta_to unopened content s = s
text_delta_to (opened i) content s = emit (content_block_delta i text_delta content) s
text_delta_to closed content s = s

pub emit_text_delta : Text → Stream → Stream
unfolding open_text text_delta_to
emit_text_delta [] s = s
emit_text_delta (b ∷ content) s =
    let s' = open_text s.text s in text_delta_to s'.text (b ∷ content) s'

-- The slice grown until it has the index, and a write into it.
pub grow : ℕ → List (Option ℕ) → List (Option ℕ)
grow zero [] = none ∷ []
grow zero (x ∷ xs) = x ∷ xs
grow (suc i) [] = none ∷ grow i []
grow (suc i) (x ∷ xs) = x ∷ grow i xs

pub set_slot : ℕ → ℕ → List (Option ℕ) → List (Option ℕ)
set_slot i v [] = []
set_slot zero v (x ∷ xs) = some v ∷ xs
set_slot (suc i) v (x ∷ xs) = x ∷ set_slot i v xs

arguments_to : ℕ → Text → Stream → Stream
arguments_to block [] s = s
arguments_to block (b ∷ args) s = emit (content_block_delta block input_json_delta (b ∷ args)) s

tool_at : ℕ → ToolCall → Option ℕ → Stream → Stream
unfolding close_thinking_block arguments_to
tool_at i tc none s =
    let s' = close_thinking_block s in
    arguments_to s'.next_block_idx tc.arguments (
      emit (content_block_start s'.next_block_idx (tool_use_block tc.id tc.name)) (record s' {
        tool_slots = set_slot i s'.next_block_idx s'.tool_slots;
        next_block_idx = s'.next_block_idx + 1;
      }))
tool_at i tc (some block) s = arguments_to block tc.arguments s

-- One entry of delta.tool_calls.
tool_call_at : ℤ → ToolCall → Stream → Option Stream
unfolding tool_at grow set_slot
tool_call_at (negsuc n) tc s = none
tool_call_at (pos i) tc s =
    let slots = grow i s.tool_slots in
    some (tool_at i tc (get_or slots i none) (record s { tool_slots = slots }))

pub tool_calls : List ToolCall → Stream → Option Stream
unfolding tool_call_at
tool_calls [] s = some s
tool_calls (tc ∷ tcs) s = elim (tool_call_at tc.index tc s) [
  | none ↦ none
  | some s' ↦ tool_calls tcs s'
]

pub content : Text → Stream → Stream
unfolding emit_thinking_delta emit_text_delta
content [] s = s
content (b ∷ c) s =
    let r = process s.filter (b ∷ c) in
    emit_text_delta r.text (emit_thinking_delta r.think (record s { filter = r.filter }))

pub map_finish_reason : Text → Text
map_finish_reason reason =
    if text_eq reason (codes "stop")
    then codes "end_turn"
    else if text_eq reason (codes "length")
    then codes "max_tokens"
    else if text_eq reason (codes "tool_calls")
    then codes "tool_use"
    else if text_eq reason (codes "content_filter")
    then codes "stop_sequence"
    else codes "end_turn"

flush_partial : Bool → Text → Stream → Stream
unfolding emit_thinking_delta emit_text_delta
flush_partial m [] s = s
flush_partial true (b ∷ p) s =
    let s' = emit_thinking_delta (b ∷ p) s in
    record s' { filter = record { in_think = true; partial = [] } }
flush_partial false (b ∷ p) s =
    let s' = emit_text_delta (b ∷ p) s in
    record s' { filter = record { in_think = false; partial = [] } }

stop_tools : List (Option ℕ) → Stream → Stream
stop_tools [] s = s
stop_tools (none ∷ slots) s = stop_tools slots s
stop_tools (some i ∷ slots) s = stop_tools slots (emit (content_block_stop i) s)

stop_text : Slot → Stream → Stream
stop_text unopened s = s
stop_text (opened i) s = emit (content_block_stop i) (record s { text = closed })
stop_text closed s = s

-- Every open block is stopped: thinking, then the tools, then text.
pub stop_blocks : Stream → Stream
unfolding close_thinking_block stop_tools stop_text
stop_blocks s =
    let s' = close_thinking_block s in
    let s'' = stop_tools s'.tool_slots s' in stop_text s''.text s''

end_message : Text → Stream → Stream
unfolding flush_partial stop_blocks
end_message reason s =
    let s' = flush_partial s.filter.in_think s.filter.partial (record s { stream_ended = true }) in
    let s'' = stop_blocks s' in
    emit (message_delta (map_finish_reason reason) s''.output_tokens) s''

pub finish : Option Text → Bool → Stream → Stream
unfolding end_message
finish none ended s = s
finish (some reason) true s = s
finish (some reason) false s = end_message reason s

abbrev or_id : Text → Text → Text
or_id [] id = id
or_id (b ∷ new) id = b ∷ new

pub start_message : Text → Text → Bool → Stream → Stream
start_message model_id id true s = s
start_message model_id id false s =
    let s' = record s { stream_started = true; message_id = or_id id s.message_id } in
    emit ping (emit (message_start s'.message_id model_id) s')

pub use_choice : Text → Text → Choice → Stream → Option Stream
unfolding start_message emit_thinking_delta tool_calls content finish
use_choice model_id id c s =
    let s₁ = start_message model_id id s.stream_started s in
    let s₂ = emit_thinking_delta c.reasoning (emit_thinking_delta c.reasoning_content s₁) in
    elim (tool_calls c.tool_calls s₂) [
      | none ↦ none
      | some s₃ ↦ let s₄ = content c.content s₃ in some (finish c.finish_reason s₄.stream_ended s₄)
    ]

pub count_usage : Option (ℤ × ℤ) → Stream → Stream
count_usage none s = s
count_usage (some (input, output)) s = record s { input_tokens = input; output_tokens = output }

-- The loop's body for a chunk that was decoded.
unfoldable pub on_chunk : Text → Chunk → Stream → Option Stream
unfolding use_choice count_usage
on_chunk model_id k s = elim k.choices [
  | [] ↦ some (count_usage k.usage s)
  | c ∷ cs ↦ use_choice model_id k.id c (count_usage k.usage s)
]

pub stop_message : Bool → Stream → Stream
stop_message true s = s
stop_message false s = emit message_stop (record s { message_stop_sent = true })
