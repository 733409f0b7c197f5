-- ===== src/Tests/Messages.antt =====
-- A response of one chunk through the OpenAI provider, and the message of a buffered stream.
use claude_code_router.Common.{arith}
use claude_code_router.Providers.Think.{Routed, ThinkFilter, loop, process}
use claude_code_router.Providers.Think.Segments.{Segments, process-Segments}
use claude_code_router.Providers.Think.Fuel.{loop_fuel}
use claude_code_router.Providers.Think.Chunks.{process-append}
use claude_code_router.Common.{
  ◌≡◌, refl, Text, codes, text_eq, true, false, List, [], ◌∷◌, ◌++◌, Option, none, some,
}
use claude_code_router.Json.{ℤ, pos}
use claude_code_router.Providers.OpenAi.Decode.{Chunk}
use claude_code_router.Providers.OpenAi.{input_json_delta, Stream, initial, on_chunk, stop_message}
use claude_code_router.Providers.OpenAi.Protocol.{View, Runs, IsComplete}
use claude_code_router.Providers.OpenAi.Message.{
  Reaches, begins, takes, finishes, idles, stream-Runs, finished_stream-IsComplete,
}
use claude_code_router.Router.BlockEvents.{BlockStart}
use claude_code_router.Router.Message.{
  BlockState, Builder, Event, content_block_start, content_block_delta, new_builder, on_event,
  new_block,
}
use claude_code_router.Router.Message.Content.{on_events, carried, block_content}

abbrev hello : Chunk
hello = record {
  id = codes "c1";
  choices =
      record {
        content = codes "<think>hm</think>hello";
        reasoning_content = [];
        reasoning = [];
        tool_calls =
            record { index = pos 0; id = codes "t"; name = codes "ls"; arguments = codes "{}" }
            ∷ [];
        finish_reason = some (codes "stop");
      }
      ∷ [];
  usage = none;
}

abbrev or_initial : Option Stream → Stream
or_initial none = initial (codes "m")
or_initial (some s) = s

abbrev said : Stream
said = or_initial (on_chunk (codes "m") hello (initial (codes "m")))

says : on_chunk (codes "m") hello (initial (codes "m")) ≡ some said
unfolding on_chunk initial
says = refl

not_ended : (initial (codes "m")).stream_ended ≡ false
unfolding initial
not_ended = refl

ended : said.stream_ended ≡ true
unfolding on_chunk initial claude_code_router.Providers.Think.process
    claude_code_router.Common.cut_prefix claude_code_router.Providers.Think.partial_tag_overlap
    text_eq
ended = refl

reached : Reaches (codes "m") said
reached = takes begins not_ended hello says

stream-Runs_example : (v : View) × Runs said.out v
stream-Runs_example = stream-Runs (codes "m") said reached

-- The usage chunk, and a chunk that repeats the finish reason.
abbrev usage_chunk : Chunk
usage_chunk = record { id = codes "c1"; choices = []; usage = some (pos 3, pos 2) }

abbrev repeats : Chunk
repeats = record {
  id = codes "c1";
  choices =
      record {
        content = [];
        reasoning_content = [];
        reasoning = [];
        tool_calls = [];
        finish_reason = some (codes "stop");
      }
      ∷ [];
  usage = none;
}

abbrev counted : Stream
counted = or_initial (on_chunk (codes "m") usage_chunk said)

counts : on_chunk (codes "m") usage_chunk said ≡ some counted
unfolding on_chunk initial
counts = refl

abbrev settled : Stream
settled = or_initial (on_chunk (codes "m") repeats counted)

settles : on_chunk (codes "m") repeats counted ≡ some settled
unfolding on_chunk initial claude_code_router.Providers.Think.process
    claude_code_router.Common.cut_prefix claude_code_router.Providers.Think.partial_tag_overlap
    text_eq
settles = refl

finished_stream-IsComplete_example : IsComplete (stop_message settled.message_stop_sent settled).out
finished_stream-IsComplete_example = finished_stream-IsComplete (codes "m") settled (
    idles (idles (finishes reached ended) usage_chunk tt counts) repeats (refl, refl, refl, refl)
      settles)

abbrev text_start : BlockStart
text_start = record { index = pos 0; type = codes "text"; id = []; name = [] }

abbrev text_piece : ℤ → Text → Event
text_piece i s =
    content_block_delta
      (record { index = i; type = codes "text_delta"; text = s; thinking = []; partial_json = [] })

abbrev begun : Builder
begun = on_event (content_block_start text_start) new_builder

abbrev pieces : List Event
pieces =
    text_piece (pos 0) (codes "a")
    ∷ text_piece (pos 1) (codes "x")
    ∷ text_piece (pos 0) (codes "b")
    ∷ []

begun_block : begun.blocks (pos 0) ≡ some (new_block text_start)
unfolding on_event
begun_block = refl

block_content_example :
    (t : BlockState) × ((on_events pieces begun).blocks (pos 0) ≡ some t)
    × (t.text
        ≡ (new_block text_start).text ++ carried (codes "text_delta") (λ d. d.text) (pos 0) pieces)
    × (t.tool_json
        ≡ (new_block text_start).tool_json
          ++ carried (codes "input_json_delta") (λ d. d.partial_json) (pos 0) pieces)
block_content_example = block_content (pos 0) pieces (new_block text_start) begun begun_block refl

-- A chunk that goes on with a tool call after the finish reason writes a delta for a block that has
-- been stopped.
abbrev call_of : Text → Option Text → Chunk
call_of args reason = record {
  id = codes "c1";
  choices =
      record {
        content = [];
        reasoning_content = [];
        reasoning = [];
        tool_calls = record { index = pos 0; id = []; name = []; arguments = args } ∷ [];
        finish_reason = reason;
      }
      ∷ [];
  usage = none;
}

abbrev stopped : Stream
stopped =
    or_initial
      (on_chunk (codes "m") (call_of (codes "{") (some (codes "stop"))) (initial (codes "m")))

late_delta :
    (or_initial (on_chunk (codes "m") (call_of (codes "}") none) stopped)).out
    ≡ stopped.out
      ++ claude_code_router.Providers.OpenAi.content_block_delta 0 input_json_delta (codes "}") ∷ []
unfolding on_chunk initial
late_delta = refl

abbrev nothing_routed : Routed
nothing_routed = record {
  text = [];
  think = [];
  filter = record { in_think = false; partial = [] };
}

loop_fuel_example :
    loop 12 false (codes "a<think>b") nothing_routed
    ≡ loop 10 false (codes "a<think>b") nothing_routed
loop_fuel_example =
    loop_fuel 12 10 false (codes "a<think>b") nothing_routed (omega arith) (omega arith)

abbrev thinking_so_far : ThinkFilter
thinking_so_far = record { in_think = true; partial = codes "</th" }

process-Segments_example :
    Segments true
      (codes "</th" ++ codes "ink>ok<")
      (process thinking_so_far (codes "ink>ok<")).text
      (process thinking_so_far (codes "ink>ok<")).think
      (process thinking_so_far (codes "ink>ok<")).filter.in_think
      (process thinking_so_far (codes "ink>ok<")).filter.partial
process-Segments_example = process-Segments thinking_so_far (codes "ink>ok<")

process-append_example :
    let q = process thinking_so_far (codes "ink>o") in
    let r = process q.filter (codes "k<") in
    process thinking_so_far (codes "ink>o" ++ codes "k<")
    ≡ record { text = q.text ++ r.text; think = q.think ++ r.think; filter = r.filter }
process-append_example = process-append thinking_so_far (codes "ink>o") (codes "k<")
