-- ===== src/Tests/Requests.antt =====
-- A conversation of an OpenAI client, and both endpoints in front of the router of Tests/Routing.
use claude_code_router.Common.{
  text_eq, ◌≡◌, ◌↔◌, refl, Text, codes, true, false, List, [], ◌∷◌, Option, none, some, map, All,
}
use claude_code_router.Json.{
  pos, Json, Items, Fields, null, bool, int, str, arr, obj, nil, cons, end, field,
}
use claude_code_router.Json.Decode.{◌>>=◌}
use claude_code_router.Db.{empty_database}
use claude_code_router.Providers.Request.{AnthropicRequest, Message, text_block, request_of}
use claude_code_router.Providers.Outbound.{
  OutMessage, ToolCall, Tool, message, convert_to_openai, convert_tools,
}
use claude_code_router.Router.OpenAiRequest.{InRequest, InMessage, in_request_of}
use claude_code_router.Router.Inbound.{openai_to_anthropic}
use claude_code_router.Router.Inbound.Wire.{wire, IsPlain, says, calls, answers}
use claude_code_router.Router.Inbound.RoundTrip.{conversation, chat-round_trip}
use claude_code_router.Router.OpenAiBody.{anthropic_to_openai, texts, convert_to_openai-texts}
use claude_code_router.Router.Proxy.{status_of}
use claude_code_router.Router.Proxy.Kinds.{IsDocument, IsStreamed}
use claude_code_router.Router.Handlers.{Served, handle_messages, handle_chat_completions}
use claude_code_router.Router.Handlers.Answers.{IsUntouched, messages_kind, chat_completions_kind}
use claude_code_router.Tests.Proxied.{no_json, no_text, no_chunk}
use claude_code_router.Tests.Routing.{upstreams, keys_of, cfg, start}

abbrev call : ToolCall
call = record { id = codes "c1"; name = codes "f"; arguments = codes "{}" }

abbrev calling : OutMessage
calling = record {
  role = codes "assistant";
  content = none;
  tool_call_id = [];
  tool_calls = call ∷ [];
}

abbrev answering : OutMessage
answering = record {
  role = codes "tool";
  content = some (codes "ok");
  tool_call_id = codes "c1";
  tool_calls = [];
}

abbrev chat : List OutMessage
chat = message (codes "user") (some (codes "hi")) ∷ calling ∷ answering ∷ []

abbrev said : Text → Text → Json
said role s = obj (field (codes "role") (str (codes "user")) (field (codes "content") (str s) end))

abbrev call_json : Json
call_json = obj (
    field (codes "function")
      (obj
        (field (codes "arguments") (str (codes "{}")) (field (codes "name") (str (codes "f")) end)))
      (field (codes "id") (str (codes "c1")) (field (codes "type") (str (codes "function")) end)))

abbrev messages_json : Items
messages_json =
    cons
      (obj (
        field (codes "role") (str (codes "system"))
          (field (codes "content") (str (codes "be brief")) end)))
      (cons
        (obj (
          field (codes "role") (str (codes "user"))
            (field (codes "content") (str (codes "hi")) end)))
        (cons
          (obj (
            field (codes "role") (str (codes "assistant")) (
              field (codes "content") null
                (field (codes "tool_calls") (arr (cons call_json nil)) end))))
          (cons
            (obj (
              field (codes "role") (str (codes "tool")) (
                field (codes "content") (str (codes "ok"))
                  (field (codes "tool_call_id") (str (codes "c1")) end))))
            nil)))

abbrev chat_json : Json
chat_json =
    obj (
      field (codes "model") (str (codes "opus")) (field (codes "messages") (arr messages_json) end))

abbrev chat_request : InRequest
chat_request = record {
  model = codes "opus";
  messages = map wire (conversation (codes "be brief") chat);
  max_tokens = pos 0;
  stream = false;
  temperature = none;
  top_p = none;
  stop = [];
  tools = [];
  tool_choice = none;
}

abbrev reads : Text → Option Json
reads s = some chat_json

decoded : in_request_of chat_json ≡ some chat_request
unfolding in_request_of wire claude_code_router.Json.Decode.str_field
    claude_code_router.Json.Decode.each claude_code_router.Router.OpenAiRequest.in_message_of
    claude_code_router.Providers.Request.raw_field claude_code_router.Json.Decode.int_field
    claude_code_router.Providers.Request.bool_field
    claude_code_router.Providers.Request.number_field
    claude_code_router.Providers.Request.strings_field claude_code_router.Json.Decode.obj_field
decoded = refl

chat-IsPlain : All IsPlain chat
unfolding text_eq
chat-IsPlain = (
  says (codes "user") b'h' (codes "i") refl refl,
  (calls [] call [] ((refl, refl), tt), (answers (codes "c1") (codes "ok"), tt)),
)

chat-round_trip_example :
    (req : AnthropicRequest) × (openai_to_anthropic reads (codes "body") ≡ some req)
    × ((convert_to_openai no_text req (codes "m")).messages ≡ conversation (codes "be brief") chat)
chat-round_trip_example =
    chat-round_trip reads no_text (codes "body") (codes "m") (codes "be brief") chat_json
      chat_request chat refl decoded refl chat-IsPlain

abbrev tool_json : Json
tool_json =
    obj (
      field (codes "name") (str (codes "f")) (field (codes "description") (str (codes "adds")) end))

abbrev sent_tool : Tool
sent_tool = record { name = codes "f"; description = codes "adds"; parameters = none }

converted_tools : convert_tools (some (arr (cons tool_json nil))) ≡ some (sent_tool ∷ [])
unfolding convert_tools claude_code_router.Json.Decode.each
    claude_code_router.Providers.Outbound.anthropic_tool_of claude_code_router.Json.Decode.str_field
    claude_code_router.Providers.Request.raw_field
converted_tools = refl

abbrev text_request : AnthropicRequest
text_request = record {
  model = codes "opus";
  messages = record { role = codes "user"; content = text_block (codes "hi") ∷ [] } ∷ [];
  system = none;
  max_tokens = pos 5;
  stream = true;
  temperature = none;
  top_p = none;
  top_k = none;
  stop_sequences = [];
  tools = none;
  tool_choice = none;
  thinking = none;
  metadata = none;
  raw_body = [];
  anthropic_beta = [];
  non_streaming = false;
}

convert_to_openai-texts_example :
    let a = anthropic_to_openai no_text text_request (codes "m") in
    let b = convert_to_openai no_text text_request (codes "m") in
    (a.messages ≡ b.messages)
    × (a.model ≡ b.model)
    × (a.max_tokens ≡ b.max_tokens)
    × (a.stream ≡ b.stream)
    × (a.include_usage ≡ b.include_usage)
convert_to_openai-texts_example =
    convert_to_openai-texts no_text text_request (codes "m")
      (texts (codes "user") (codes "hi") [], tt)

abbrev rejected : Served
rejected =
    handle_messages no_json no_text no_chunk no_text upstreams keys_of cfg [] (some (codes "{"))
      empty_database start

abbrev plain_body : Json
plain_body = obj (field (codes "model") (str (codes "opus")) end)

abbrev reads_plain : Text → Option Json
reads_plain s = some plain_body

abbrev plain_request : AnthropicRequest
plain_request = record {
  model = codes "opus";
  messages = [];
  system = none;
  max_tokens = pos 0;
  stream = false;
  temperature = none;
  top_p = none;
  top_k = none;
  stop_sequences = [];
  tools = none;
  tool_choice = none;
  thinking = none;
  metadata = none;
  raw_body = [];
  anthropic_beta = [];
  non_streaming = false;
}

plain_decoded : request_of no_text plain_body ≡ some plain_request
unfolding request_of claude_code_router.Json.Decode.str_field
    claude_code_router.Providers.Request.messages_field claude_code_router.Json.Decode.int_field
    claude_code_router.Providers.Request.bool_field
    claude_code_router.Providers.Request.number_field
    claude_code_router.Providers.Request.int_ptr_field
    claude_code_router.Providers.Request.strings_field
plain_decoded = refl

abbrev answered : Served
answered =
    handle_messages reads_plain no_text no_chunk no_text upstreams keys_of cfg []
      (some (codes "{}")) empty_database start

messages_kind_example :
    (false ≡ false → IsDocument answered.response) × (false ≡ true → IsStreamed answered.response)
messages_kind_example =
    messages_kind reads_plain no_text no_chunk no_text upstreams keys_of cfg [] (codes "{}")
      plain_body plain_request empty_database start refl plain_decoded

abbrev completed : Served
completed =
    handle_chat_completions reads no_text no_chunk no_text upstreams keys_of cfg []
      (some (codes "body")) empty_database start

chat_completions_kind_example :
    ((status_of completed.response ≡ 400) ↔ (openai_to_anthropic reads (codes "body") ≡ none))
    × (openai_to_anthropic reads (codes "body") ≡ none → IsUntouched empty_database start completed)
    × IsStreamed completed.response
chat_completions_kind_example =
    chat_completions_kind reads no_text no_chunk no_text upstreams keys_of cfg []
      (some (codes "body")) empty_database start
