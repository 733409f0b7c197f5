-- ===== src/Router/OpenAiRequest.antt =====
-- router/convert.go, the request of an OpenAI client and how it is decoded.
use claude_code_router.Common.{Text, codes, Bool, List, [], Option, some}
use claude_code_router.Json.{ℤ, Json}
use claude_code_router.Json.Decode.{
  names, member, str_field, int_field, obj_field, top, read_list, ◌>>=◌,
}
use claude_code_router.Providers.Request.{raw_field, bool_field, number_field, strings_field}

-- openAIMessage
pub record InMessage : Type 0 where
  pub role : Text
  pub content : Option Json
  pub tool_calls : Option Json
  pub tool_call_id : Text

-- openAITool with openAIFunction
pub record InTool : Type 0 where
  pub type : Text
  pub name : Text
  pub description : Text
  pub parameters : Option Json

-- openAIRequest
pub record InRequest : Type 0 where
  pub model : Text
  pub messages : List InMessage
  pub max_tokens : ℤ
  pub stream : Bool
  pub temperature : Option Json
  pub top_p : Option Json
  pub stop : List Text
  pub tools : List InTool
  pub tool_choice : Option Json

-- openAIToolCallInMsg
pub record InToolCall : Type 0 where
  pub id : Text
  pub type : Text
  pub name : Text
  pub arguments : Text

unfoldable pub in_tool_call_of : Json → Option InToolCall
in_tool_call_of v = do
  fs ← top v
  id ← str_field (codes "id") fs
  type ← str_field (codes "type") fs
  f ← obj_field (codes "function") fs
  name ← str_field (codes "name") f
  arguments ← str_field (codes "arguments") f
  some (record { id = id; type = type; name = name; arguments = arguments })

unfoldable pub in_message_of : Json → Option InMessage
in_message_of v = do
  fs ← top v
  role ← str_field (codes "role") fs
  content ← raw_field (codes "content") fs
  tool_calls ← raw_field (codes "tool_calls") fs
  tool_call_id ← str_field (codes "tool_call_id") fs
  some (record {
    role = role;
    content = content;
    tool_calls = tool_calls;
    tool_call_id = tool_call_id;
  })

in_tool_of : Json → Option InTool
in_tool_of v = do
  fs ← top v
  type ← str_field (codes "type") fs
  f ← obj_field (codes "function") fs
  name ← str_field (codes "name") f
  description ← str_field (codes "description") f
  parameters ← raw_field (codes "parameters") f
  some (record { type = type; name = name; description = description; parameters = parameters })

-- The stream options are decoded and not used.
unfoldable pub in_request_of : Json → Option InRequest
unfolding member names in_tool_of
in_request_of v = do
  fs ← top v
  model ← str_field (codes "model") fs
  messages ← member (read_list in_message_of) [] (codes "messages") fs
  max_tokens ← int_field (codes "max_tokens") fs
  stream ← bool_field (codes "stream") fs
  temperature ← number_field (codes "temperature") fs
  top_p ← number_field (codes "top_p") fs
  stop ← strings_field (codes "stop") fs
  options ← obj_field (codes "stream_options") fs
  include_usage ← bool_field (codes "include_usage") options
  tools ← member (read_list in_tool_of) [] (codes "tools") fs
  tool_choice ← raw_field (codes "tool_choice") fs
  some (record {
    model = model;
    messages = messages;
    max_tokens = max_tokens;
    stream = stream;
    temperature = temperature;
    top_p = top_p;
    stop = stop;
    tools = tools;
    tool_choice = tool_choice;
  })
