-- ===== src/Providers/Outbound.antt =====
-- providers/openai.go, convertToOpenAI: the request that an OpenAI upstream is sent for a request of the
-- Messages API. json.Marshal of a string is kept as the string, and of a tool call or a tool as the
-- record that is printed. A record holds Go strings as they are before they are printed: a description
-- that was cut inside a code point is printed with replacement characters, so what is sent of it can be
-- longer than the record's.
use claude_code_router.Common.{
  ℕ, Text, codes, text_eq, Bool, true, ◌||◌, ltb, if◌then◌else◌, List, [], ◌∷◌, ◌++◌, Option, none,
  some, map, length, take, flatten,
}
use claude_code_router.Json.{ℤ, Json}
use claude_code_router.Json.Decode.{str_field, top, read_list, ◌>>=◌}
use claude_code_router.Providers.Request.{
  ContentBlock, Blocks, block, no_blocks, block_and, Message, AnthropicRequest, type_of, block_text,
  system_text, raw_field,
}
use claude_code_router.Providers.Schema.{sanitize}

pub record ToolCall : Type 0 where
  pub id : Text
  pub name : Text
  pub arguments : Text

-- openAIMessage: a content of null is `none`, and the fields that are left out where empty are empty.
pub record OutMessage : Type 0 where
  pub role : Text
  pub content : Option Text
  pub tool_call_id : Text
  pub tool_calls : List ToolCall

pub record Tool : Type 0 where
  pub name : Text
  pub description : Text
  pub parameters : Option Json

pub data ToolChoice : Type 0 where
  auto required : ToolChoice
  function : (name : Text) → ToolChoice

-- openAIRequest: tools and tool_choice are left out where they are `none`.
pub record OutRequest : Type 0 where
  pub model : Text
  pub messages : List OutMessage
  pub stream : Bool
  pub include_usage : Bool
  pub max_tokens : ℤ
  pub temperature : Option Json
  pub top_p : Option Json
  pub stop : List Text
  pub tools : Option (List Tool)
  pub tool_choice : Option ToolChoice

abbrev pub concat : List Text → Text
concat ss = flatten ss

-- The variables of the loop over the blocks of a message.
pub record Parts : Type 0 where
  pub texts : List Text
  pub tool_calls : List ToolCall
  pub tool_results : List OutMessage

abbrev pub message : Text → Option Text → OutMessage
message role content = record { role = role; content = content; tool_call_id = []; tool_calls = [] }

inner_texts : Blocks → List Text
inner_texts no_blocks = []
inner_texts (block_and b bs) =
    let rest = inner_texts bs in
    if text_eq (type_of b) (codes "text") then block_text b ∷ rest else rest

result_text : Text → Blocks → Text
unfolding inner_texts
result_text text no_blocks = text
result_text text (block_and b bs) = concat (inner_texts (block_and b bs))

unfoldable pub arguments_of : Text → Text
arguments_of input = if text_eq input [] || text_eq input (codes "null") then codes "{}" else input

-- A block is put before what the later blocks give.
pub add_block : ContentBlock → Parts → Parts
unfolding result_text arguments_of
add_block (block type text id name input tool_use_id content) p =
    if text_eq type (codes "text")
    then record p { texts = text ∷ p.texts }
    else if text_eq type (codes "tool_use")
    then record p {
      tool_calls = record { id = id; name = name; arguments = arguments_of input } ∷ p.tool_calls;
    }
    else if text_eq type (codes "tool_result")
    then record p {
      tool_results =
          record {
            role = codes "tool";
            content = some (result_text text content);
            tool_call_id = tool_use_id;
            tool_calls = [];
          }
          ∷ p.tool_results;
    }
    else p

unfoldable pub parts : List ContentBlock → Parts
unfolding add_block
parts [] = record { texts = []; tool_calls = []; tool_results = [] }
parts (b ∷ bs) = add_block b (parts bs)

-- The text of the parts, where there are any.
abbrev text_of : List Text → Option Text
text_of [] = none
text_of (s ∷ ss) = some (concat (s ∷ ss))

unfoldable pub assistant_message : Parts → OutMessage
assistant_message p = record {
  role = codes "assistant";
  content = text_of p.texts;
  tool_call_id = [];
  tool_calls = p.tool_calls;
}

unfoldable pub text_message : Text → List Text → List OutMessage
text_message role [] = []
text_message role (s ∷ ss) = message role (some (concat (s ∷ ss))) ∷ []

unfoldable pub convert_message : Message → List OutMessage
unfolding assistant_message text_message parts
convert_message m =
    let p = parts m.content in
    if text_eq m.role (codes "assistant")
    then assistant_message p ∷ []
    else p.tool_results ++ text_message m.role p.texts

abbrev pub system_message : Text → List OutMessage
system_message [] = []
system_message (b ∷ s) = message (codes "system") (some (b ∷ s)) ∷ []

unfoldable pub convert_messages : Text → List Message → List OutMessage
unfolding convert_message
convert_messages system ms = system_message system ++ flatten (map convert_message ms)

-- A tool of the Messages API.
pub record AnthropicTool : Type 0 where
  pub name : Text
  pub description : Text
  pub input_schema : Option Json

unfoldable pub anthropic_tool_of : Json → Option AnthropicTool
anthropic_tool_of v = do
  fs ← top v
  name ← str_field (codes "name") fs
  description ← str_field (codes "description") fs
  schema ← raw_field (codes "input_schema") fs
  some (record { name = name; description = description; input_schema = schema })

description_cap : ℕ → ℕ
description_cap n = if ltb 100 n then 160 else if ltb 40 n then 280 else 480

cut_description : ℕ → Text → Text
cut_description cap s = if ltb cap (length s) then take cap s ++ codes "..." else s

sane_schema : Option Json → Option Json
sane_schema none = none
sane_schema (some v) = some (sanitize v)

convert_tool : ℕ → AnthropicTool → Tool
unfolding cut_description sane_schema
convert_tool cap t = record {
  name = t.name;
  description = cut_description cap t.description;
  parameters = sane_schema t.input_schema;
}

-- Tools that do not decode are left out, as a list that is missing.
unfoldable pub convert_tools : Option Json → Option (List Tool)
unfolding description_cap convert_tool
convert_tools none = none
convert_tools (some v) = read_list anthropic_tool_of [] v >>= λ ts.
    some (map (convert_tool (description_cap (length ts))) ts)

choice : Text → Text → ToolChoice
choice type name =
    if text_eq type (codes "auto")
    then auto
    else if text_eq type (codes "any")
    then required
    else if text_eq type (codes "tool")
    then function name
    else auto

pub convert_choice : Option Json → Option ToolChoice
unfolding choice
convert_choice none = none
convert_choice (some v) = do
  fs ← top v
  type ← str_field (codes "type") fs
  name ← str_field (codes "name") fs
  some (choice type name)

unfoldable pub convert_to_openai : (Json → Text) → AnthropicRequest → Text → OutRequest
unfolding convert_messages convert_tools convert_choice
convert_to_openai raw req model_id = record {
  model = model_id;
  messages = convert_messages (system_text raw req.system) req.messages;
  stream = true;
  include_usage = true;
  max_tokens = req.max_tokens;
  temperature = req.temperature;
  top_p = req.top_p;
  stop = req.stop_sequences;
  tools = convert_tools req.tools;
  tool_choice = convert_choice req.tool_choice;
}
