-- ===== src/Router/Inbound.antt =====
-- router/convert.go, the requests of the clients: OpenAIToAnthropic and AnthropicBodyToRequest.
pub mod Wire
pub mod RoundTrip
use claude_code_router.Common.{
  ℕ, Text, codes, text_eq, Bool, true, false, not, if◌then◌else◌, List, [], ◌∷◌, ◌++◌, Option, none,
  some, map,
}
use claude_code_router.Json.{
  ℤ, pos, negsuc, same_int, Json, Items, Fields, null, str, obj, arr, nil, cons, end, field,
}
use claude_code_router.Json.Decode.{
  names, member, str_field, int_field, obj_field, top, read_list, read_str, ◌>>=◌,
}
use claude_code_router.Providers.Request.{
  ContentBlock, Blocks, block, no_blocks, block_and, text_block, Message, AnthropicRequest,
  raw_field, bool_field, number_field, strings_field, request_of,
}
use claude_code_router.Router.OpenAiRequest.{
  InMessage, InTool, InRequest, InToolCall, in_tool_call_of, in_message_of, in_request_of,
}

-- sysRaw, msgs and pendingToolResults.
pub record Conversion : Type 0 where
  pub system : Option Json
  pub messages : List Message
  pub pending : List ContentBlock

pub new_conversion : Conversion
new_conversion = record { system = none; messages = []; pending = [] }

flush_list : List ContentBlock → Conversion → Conversion
flush_list [] c = c
flush_list (b ∷ bs) c = record c {
  messages = c.messages ++ record { role = codes "user"; content = b ∷ bs } ∷ [];
  pending = [];
}

pub flush_tool_results : Conversion → Conversion
unfolding flush_list
flush_tool_results c = flush_list c.pending c

-- A content that decodes as a string; any other leaves the string empty.
abbrev pub content_text : Option Json → Text
content_text (some (str s)) = s
content_text _ = []

tool_result : InMessage → ContentBlock
tool_result m =
    block (codes "tool_result") [] [] [] [] m.tool_call_id
      (block_and (text_block (content_text m.content)) no_blocks)

-- null decodes as the empty string, and a content that is missing or no string changes nothing.
set_system : Option Json → Conversion → Conversion
set_system (some null) c = record c { system = some (str []) }
set_system (some (str s)) c = record c { system = some (str s) }
set_system _ c = c

pub input_of : Text → Text
input_of [] = codes "{}"
input_of (b ∷ s) = b ∷ s

pub tool_use : InToolCall → ContentBlock
unfolding input_of
tool_use t = block (codes "tool_use") [] t.id t.name (input_of t.arguments) [] no_blocks

abbrev say : Text → List ContentBlock → Conversion → Conversion
say role content c = record c {
  messages = c.messages ++ record { role = role; content = content } ∷ [];
}

pub text_blocks : Text → List ContentBlock
text_blocks [] = []
text_blocks (b ∷ s) = text_block (b ∷ s) ∷ []

say_text : Text → Text → Conversion → Conversion
say_text role [] c = c
say_text role (b ∷ s) c = say role (text_block (b ∷ s) ∷ []) c

-- The tool calls of an assistant's message, where it has a list of them.
pub calls_of : InMessage → Option (List InToolCall)
calls_of m =
    if text_eq m.role (codes "assistant")
    then (m.tool_calls >>= read_list in_tool_call_of [])
    else none

say_calls : InMessage → Option (List InToolCall) → Conversion → Conversion
unfolding say_text text_blocks tool_use
say_calls m none c = say_text m.role (content_text m.content) c
say_calls m (some calls) c =
    say (codes "assistant") (text_blocks (content_text m.content) ++ map tool_use calls) c

-- The body of the loop over the messages.
pub add_message : InMessage → Conversion → Conversion
unfolding flush_tool_results set_system calls_of say_calls tool_result
add_message m c =
    if text_eq m.role (codes "tool")
    then record c { pending = c.pending ++ tool_result m ∷ [] }
    else if text_eq m.role (codes "system")
    then set_system m.content (flush_tool_results c)
    else say_calls m (calls_of m) (flush_tool_results c)

pub add_messages : List InMessage → Conversion → Conversion
unfolding add_message
add_messages [] c = c
add_messages (m ∷ ms) c = add_messages ms (add_message m c)

pub convert : List InMessage → Conversion
unfolding add_messages new_conversion flush_tool_results
convert ms = flush_tool_results (add_messages ms new_conversion)

abbrev described : Text → Fields → Fields
described [] fs = fs
described (b ∷ s) fs = field (codes "description") (str (b ∷ s)) fs

abbrev schema_or_empty : Option Json → Json
schema_or_empty none =
    obj (field (codes "type") (str (codes "object")) (field (codes "properties") (obj end) end))
schema_or_empty (some v) = v

tool_document : InTool → Json
tool_document t = obj (
    field (codes "name") (str t.name)
      (described t.description (field (codes "input_schema") (schema_or_empty t.parameters) end)))

array : List Json → Items
array [] = nil
array (v ∷ vs) = cons v (array vs)

tools_of : List InTool → Option Json
unfolding array tool_document
tools_of [] = none
tools_of (t ∷ ts) = some (arr (array (map tool_document (t ∷ ts))))

typed : Text → Option Json
typed type = some (obj (field (codes "type") (str type) end))

choice_string : Text → Option Json
unfolding typed
choice_string s =
    if text_eq s (codes "auto")
    then typed (codes "auto")
    else if text_eq s (codes "none")
    then typed (codes "auto")
    else if text_eq s (codes "required")
    then typed (codes "any")
    else none

named_function : Text → Text → Option Json
named_function type name =
    if text_eq type (codes "function")
    then some
        (obj (field (codes "name") (str name) (field (codes "type") (str (codes "tool")) end)))
    else none

-- A choice that is no string: an object that names a function.
choice_object : Json → Option Json
choice_object v = do
  fs ← top v
  type ← str_field (codes "type") fs
  f ← obj_field (codes "function") fs
  name ← str_field (codes "name") f
  named_function type name

pub choice_of : Option Json → Option Json
unfolding choice_string choice_object named_function
choice_of none = none
choice_of (some null) = choice_string []
choice_of (some (str s)) = choice_string s
choice_of (some v) = choice_object v

abbrev or_default : ℤ → ℤ
or_default n = if same_int n (pos 0) then pos 8192 else n

abbrev request_with : InRequest → Conversion → AnthropicRequest
request_with r c = record {
  model = r.model;
  messages = c.messages;
  system = c.system;
  max_tokens = or_default r.max_tokens;
  stream = true;
  temperature = r.temperature;
  top_p = r.top_p;
  top_k = none;
  stop_sequences = r.stop;
  tools = tools_of r.tools;
  tool_choice = choice_of r.tool_choice;
  thinking = none;
  metadata = none;
  raw_body = [];
  anthropic_beta = [];
  non_streaming = false;
}

-- The defaults of a request that was decoded, with the body that it came in.
abbrev pub normalised : Text → AnthropicRequest → AnthropicRequest
normalised body r = record r {
  max_tokens = or_default r.max_tokens;
  non_streaming = not r.stream;
  stream = true;
  raw_body = body;
}

module _ (decode : Text → Option Json) where
  -- `none` is the error of a body that does not decode.
  pub openai_to_anthropic : Text → Option AnthropicRequest
  unfolding convert tools_of choice_of
  openai_to_anthropic body = do
    v ← decode body
    r ← in_request_of v
    some (request_with r (convert r.messages))

  unfoldable pub anthropic_body_to_request : (Json → Text) → Text → Option AnthropicRequest
  anthropic_body_to_request raw body = do
    v ← decode body
    r ← request_of raw v
    some (normalised body r)
