-- ===== src/Router/Converter.antt =====
-- router/convert.go, openAIStreamConverter: Anthropic events in, OpenAI chunks out. A chunk that is
-- written as `data: <json>\n\n` is a value of `Emitted`; the writer dst is an argument, which says for
-- each chunk whether the write succeeded. `decode` reads the bytes of an event's data as a document.
pub mod Events
pub mod Chunking
pub mod Role
use claude_code_router.Common.{
  ℕ, zero, suc, ◌+◌, Text, codes, text_eq, join, trim_right_byte, Bool, true, false, ◌&&◌, not, ltb,
  if◌then◌else◌, List, [], ◌∷◌, ◌++◌, Option, none, some,
}
use claude_code_router.Json.{ℤ, pos, Json, same_int}
use claude_code_router.Router.OpenAiChunks.{ToolCallDelta, Delta, Chunk, Emitted, chunk, done}
use claude_code_router.Router.BlockEvents.{BlockStart, BlockDelta, block_start_of, block_delta_of}
use claude_code_router.Json.Decode.{str_field, int_field, obj_field, top, ◌>>=◌}
use claude_code_router.Events.{Line, event, data_, blank, other, classify}
use claude_code_router.Events.Lines.{split_lines}

-- The fields of openAIStreamConverter but `dst` and `remainder`.
pub record State : Type 0 where
  pub cur_event : Text
  pub cur_data : List Text
  pub msg_id : Text
  pub model : Text
  pub emitted_role : Bool
  pub block_tool_idx : ℤ → Option ℕ
  pub tool_call_count : ℕ

pub record Converter : Type 0 where
  pub remainder : Text
  pub state : State

unfoldable pub new_converter : Converter
new_converter = record {
  remainder = [];
  state = record {
    cur_event = [];
    cur_data = [];
    msg_id = codes "chatcmpl-ccr";
    model = codes "ccr";
    emitted_role = false;
    block_tool_idx = λ _. none;
    tool_call_count = 0;
  };
}

abbrev no_delta : Delta
no_delta = record { role = []; content = []; reasoning_content = []; tool_calls = [] }

abbrev chunk_of : State → Delta → Emitted
chunk_of c d =
    chunk (record { id = c.msg_id; model = c.model; delta = d; finish_reason = none; usage = none })

-- The struct that a message_delta is decoded into.
pub record MessageDelta : Type 0 where
  pub stop_reason : Text
  pub output_tokens : ℤ

-- The cases of the switch on the event's name; `none` is a json.Unmarshal that failed.
pub data Event : Type 0 where
  message_start : Option (Text × Text) → Event
  content_block_start : Option BlockStart → Event
  content_block_delta : Option BlockDelta → Event
  message_delta : Option MessageDelta → Event
  message_stop unknown : Event

message_start_of : Json → Option (Text × Text)
message_start_of v = do
  fs ← top v
  m ← obj_field (codes "message") fs
  model ← str_field (codes "model") m
  id ← str_field (codes "id") m
  some (model, id)

message_delta_of : Json → Option MessageDelta
message_delta_of v = do
  fs ← top v
  d ← obj_field (codes "delta") fs
  r ← str_field (codes "stop_reason") d
  u ← obj_field (codes "usage") fs
  n ← int_field (codes "output_tokens") u
  some (record { stop_reason = r; output_tokens = n })

pub event_of : (Text → Option Json) → Text → Text → Event
unfolding message_start_of block_start_of block_delta_of message_delta_of
event_of decode name content =
    if text_eq name (codes "message_start")
    then message_start (decode content >>= message_start_of)
    else if text_eq name (codes "content_block_start")
    then content_block_start (decode content >>= block_start_of)
    else if text_eq name (codes "content_block_delta")
    then content_block_delta (decode content >>= block_delta_of)
    else if text_eq name (codes "message_delta")
    then message_delta (decode content >>= message_delta_of)
    else if text_eq name (codes "message_stop")
    then message_stop
    else unknown

abbrev or_keep : Text → Text → Text
or_keep [] old = old
or_keep (b ∷ s) old = b ∷ s

name_message : Option (Text × Text) → State → State
name_message none c = c
name_message (some (model, id)) c = record c {
  model = or_keep model c.model;
  msg_id = or_keep id c.msg_id;
}

emit_role : State → State × Option Emitted
emit_role c = if c.emitted_role then (c, none) else (
  record c { emitted_role = true },
  some (chunk_of c (record no_delta { role = codes "assistant" })),
)

start_tool : BlockStart → State → State × Option Emitted
start_tool b c =
    if text_eq b.type (codes "tool_use")
    then (
      record c {
        tool_call_count = c.tool_call_count + 1;
        block_tool_idx =
            λ i. if same_int b.index i then some c.tool_call_count else c.block_tool_idx i;
      },
      some (
          chunk_of c (record no_delta {
            tool_calls =
                record {
                  index = c.tool_call_count;
                  id = b.id;
                  type = codes "function";
                  name = b.name;
                  arguments = [];
                }
                ∷ [];
          })),
    )
    else (c, none)

arguments_delta : BlockDelta → State → Option ℕ → Option Emitted
arguments_delta d c none = none
arguments_delta d c (some tool_idx) =
    if text_eq d.partial_json []
    then none
    else some (
        chunk_of c (record no_delta {
          tool_calls =
              record { index = tool_idx; id = []; type = []; name = []; arguments = d.partial_json }
              ∷ [];
        }))

delta_chunk : BlockDelta → State → Option Emitted
unfolding arguments_delta
delta_chunk d c =
    if text_eq d.type (codes "text_delta")
    then some (chunk_of c (record no_delta { content = d.text }))
    else if text_eq d.type (codes "thinking_delta")
    then (if text_eq d.thinking []
        then none
        else some (chunk_of c (record no_delta { reasoning_content = d.thinking })))
    else if text_eq d.type (codes "input_json_delta")
    then arguments_delta d c (c.block_tool_idx d.index)
    else none

pub finish_reason_of : Text → Text
finish_reason_of stop_reason =
    if text_eq stop_reason (codes "max_tokens")
    then codes "length"
    else if text_eq stop_reason (codes "tool_use")
    then codes "tool_calls"
    else codes "stop"

finish : Option MessageDelta → State → Emitted
finish none c = chunk (record {
  id = c.msg_id;
  model = c.model;
  delta = no_delta;
  finish_reason = some (codes "stop");
  usage = some (pos 0);
})
finish (some d) c = chunk (record {
  id = c.msg_id;
  model = c.model;
  delta = no_delta;
  finish_reason = some (finish_reason_of d.stop_reason);
  usage = some d.output_tokens;
})

-- The state after an event, and the one chunk that it writes, if any.
pub convert_event : Event → State → State × Option Emitted
unfolding name_message emit_role start_tool delta_chunk finish
convert_event (message_start m) c = emit_role (name_message m c)
convert_event (content_block_start none) c = (c, none)
convert_event (content_block_start (some b)) c = start_tool b c
convert_event (content_block_delta none) c = (c, none)
convert_event (content_block_delta (some d)) c = (c, delta_chunk d c)
convert_event (message_delta m) c = (c, some (finish m c))
convert_event message_stop c = (c, some done)
convert_event unknown c = (c, none)

abbrev cleared : State → State
cleared c = record c { cur_event = []; cur_data = [] }

flush : (Text → Option Json) → Text → List Text → State → State × Option Emitted
unfolding convert_event
flush decode [] ds c = (cleared c, none)
flush decode (b ∷ name) [] c = (cleared c, none)
flush decode (b ∷ name) (d ∷ ds) c =
    let (c', out) = convert_event (event_of decode (b ∷ name) (join (10 ∷ []) (d ∷ ds))) c in
    (cleared c', out)

process : (Text → Option Json) → Line → State → State × Option Emitted
unfolding flush
process decode (event v) c = (record c { cur_event = v }, none)
process decode (data_ v) c = (record c { cur_data = c.cur_data ++ v ∷ [] }, none)
process decode blank c = flush decode c.cur_event c.cur_data c
process decode other c = (c, none)

pub process_line : (Text → Option Json) → Text → State → State × Option Emitted
unfolding process
process_line decode line c = process decode (classify line) c

module _ {W : Type 0} (put : Emitted → W → W × Bool) (decode : Text → Option Json) where
  -- The writer after the chunk of a line, and whether the line went without an error.
  send : Option Emitted → W → W × Bool
  send none w = (w, true)
  send (some e) w = put e w

  step : Text → State → W → State × W × Bool
  unfolding send
  step line c w =
      let (c', out) = process_line decode (trim_right_byte 13 line) c in
      let (w', fine) = send out w in (c', w', fine)

  -- The loop of Write over the complete lines; after an error the bytes that are left are lost.
  feed : List Text → Text → State → W → Converter × W × Bool
  feed [] rest c w = (record { remainder = rest; state = c }, w, true)
  feed (l ∷ ls) rest c w =
      let next = feed ls rest (step l c w).0 (step l c w).1 in
      if (step l c w).2
      then next
      else (record { remainder = []; state = (step l c w).0 }, (step l c w).1, false)

  pub write : Text → Converter → W → Converter × W × Bool
  unfolding feed step split_lines
  write p c w = let (ls, rest) = split_lines (c.remainder ++ p) in feed ls rest c.state w
