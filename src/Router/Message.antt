-- ===== src/Router/Message.antt =====
-- router/sse.go, sseBytesToMessage: a buffered stream of events as one message document. `decode`
-- reads bytes as a document. scanner.Err is not read.
pub mod Content
pub mod Document
use claude_code_router.Common.{
  ℕ, zero, suc, Text, codes, text_eq, join, Bool, true, false, leb, if◌then◌else◌, List, [], ◌∷◌,
  ◌++◌, Option, none, some,
}
use claude_code_router.Json.{
  ℤ, pos, negsuc, same_int, Json, null, int, str, arr, obj, Items, nil, cons, end, field,
}
use claude_code_router.Router.BlockEvents.{BlockStart, BlockDelta, block_start_of, block_delta_of}
use claude_code_router.Json.Decode.{str_field, int_field, obj_field, str_ptr_field, top, ◌>>=◌}
use claude_code_router.Events.{Line, event, data_, blank, other, classify}
use claude_code_router.Events.Lines.{scan_lines}

pub record BlockState : Type 0 where
  pub block_type : Text
  pub text : Text
  pub thinking : Text
  pub tool_id : Text
  pub tool_name : Text
  pub tool_json : Text

-- The variables of the loop; `order` is blockOrder.
pub record Builder : Type 0 where
  pub msg_id : Text
  pub model : Text
  pub input_tokens : ℤ
  pub output_tokens : ℤ
  pub stop_reason : Text
  pub stop_sequence : Option Text
  pub blocks : ℤ → Option BlockState
  pub order : List ℤ
  pub cur_event : Text
  pub cur_data : List Text

pub new_builder : Builder
new_builder = record {
  msg_id = [];
  model = [];
  input_tokens = pos 0;
  output_tokens = pos 0;
  stop_reason = [];
  stop_sequence = none;
  blocks = λ _. none;
  order = [];
  cur_event = [];
  cur_data = [];
}

-- The structs that the events are decoded into.
pub record Start : Type 0 where
  pub id : Text
  pub model : Text
  pub input_tokens : ℤ

pub record Finish : Type 0 where
  pub stop_reason : Text
  pub stop_sequence : Option Text
  pub output_tokens : ℤ

pub data Event : Type 0 where
  message_start : Start → Event
  content_block_start : BlockStart → Event
  content_block_delta : BlockDelta → Event
  message_delta : Finish → Event
  unknown : Event

start_of : Json → Option Event
start_of v = do
  fs ← top v
  m ← obj_field (codes "message") fs
  id ← str_field (codes "id") m
  model ← str_field (codes "model") m
  u ← obj_field (codes "usage") m
  n ← int_field (codes "input_tokens") u
  some (message_start (record { id = id; model = model; input_tokens = n }))

finish_of : Json → Option Event
finish_of v = do
  fs ← top v
  d ← obj_field (codes "delta") fs
  r ← str_field (codes "stop_reason") d
  q ← str_ptr_field (codes "stop_sequence") d
  u ← obj_field (codes "usage") fs
  n ← int_field (codes "output_tokens") u
  some (message_delta (record { stop_reason = r; stop_sequence = q; output_tokens = n }))

abbrev start_event : Option BlockStart → Option Event
start_event none = none
start_event (some b) = some (content_block_start b)

abbrev delta_event : Option BlockDelta → Option Event
delta_event none = none
delta_event (some d) = some (content_block_delta d)

abbrev known : Option Event → Event
known none = unknown
known (some e) = e

-- The cases of the switch; an event whose document does not decode changes nothing.
pub event_of : (Text → Option Json) → Text → Text → Event
unfolding start_of block_start_of block_delta_of finish_of
event_of decode name content =
    if text_eq name (codes "message_start")
    then known (decode content >>= start_of)
    else if text_eq name (codes "content_block_start")
    then known (start_event (decode content >>= block_start_of))
    else if text_eq name (codes "content_block_delta")
    then known (delta_event (decode content >>= block_delta_of))
    else if text_eq name (codes "message_delta")
    then known (decode content >>= finish_of)
    else unknown

pub new_block : BlockStart → BlockState
new_block b = record {
  block_type = b.type;
  text = [];
  thinking = [];
  tool_id = b.id;
  tool_name = b.name;
  tool_json = [];
}

pub extend : BlockDelta → BlockState → BlockState
extend d s =
    if text_eq d.type (codes "text_delta")
    then record s { text = s.text ++ d.text }
    else if text_eq d.type (codes "thinking_delta")
    then record s { thinking = s.thinking ++ d.thinking }
    else if text_eq d.type (codes "input_json_delta")
    then record s { tool_json = s.tool_json ++ d.partial_json }
    else s

abbrev extended : BlockDelta → Option BlockState → Option BlockState
extended d none = none
extended d (some s) = some (extend d s)

abbrev or_old : Option Text → Option Text → Option Text
or_old none old = old
or_old (some q) old = some q

abbrev positive_or : ℤ → ℤ → ℤ
positive_or (pos zero) old = old
positive_or (pos (suc n)) old = pos (suc n)
positive_or (negsuc n) old = old

unfoldable pub on_event : Event → Builder → Builder
unfolding new_block extend
on_event (message_start m) b = record b {
  msg_id = m.id;
  model = m.model;
  input_tokens = m.input_tokens;
}
on_event (content_block_start s) b = record b {
  blocks = λ i. if same_int s.index i then some (new_block s) else b.blocks i;
  order = b.order ++ s.index ∷ [];
}
on_event (content_block_delta d) b = record b {
  blocks = λ i. if same_int d.index i then extended d (b.blocks i) else b.blocks i;
}
on_event (message_delta f) b = record b {
  stop_reason = f.stop_reason;
  stop_sequence = or_old f.stop_sequence b.stop_sequence;
  output_tokens = positive_or f.output_tokens b.output_tokens;
}
on_event unknown b = b

abbrev cleared : Builder → Builder
cleared b = record b { cur_event = []; cur_data = [] }

flush : (Text → Option Json) → Text → List Text → Builder → Builder
unfolding on_event event_of
flush decode [] ds b = cleared b
flush decode (c ∷ name) [] b = cleared b
flush decode (c ∷ name) (d ∷ ds) b =
    cleared (on_event (event_of decode (c ∷ name) (join (10 ∷ []) (d ∷ ds))) b)

pub on_line : (Text → Option Json) → Line → Builder → Builder
unfolding flush
on_line decode (event v) b = record b { cur_event = v }
on_line decode (data_ v) b = record b { cur_data = b.cur_data ++ v ∷ [] }
on_line decode blank b = flush decode b.cur_event b.cur_data b
on_line decode other b = b
