-- ===== src/Router/OpenAiBody.antt =====
-- router/convert.go, AnthropicToOpenAI: the body of an OpenAI request for a request of the Messages
-- API, which carries the texts of its messages only.
use mathlib.Core.Path.{ap₂}
use claude_code_router.Common.{
  ◌≡◌, refl, sym, ap, ◌∙◌, Text, codes, text_eq, text_eq_iff, Bool, true, if◌then◌else◌, List, [],
  ◌∷◌, ◌++◌, Option, none, some, map, flatten, All, Bool-cases, inl, inr,
}
use claude_code_router.Json.{ℤ, Json}
use claude_code_router.Json.Decode.{str_field, top, read_list, ◌>>=◌}
use claude_code_router.Providers.Request.{
  ContentBlock, text_block, Message, AnthropicRequest, type_of, block_text, system_text,
}
use claude_code_router.Providers.Outbound.{
  text_message, convert_to_openai, OutMessage, Tool, ToolChoice, auto, required, function,
  AnthropicTool, anthropic_tool_of, concat, message, system_message, convert_message,
  convert_messages, parts, Parts, assistant_message,
}

-- The tools are left out where there are none, and the choice where it is `none`.
pub record Body : Type 0 where
  pub model : Text
  pub messages : List OutMessage
  pub max_tokens : ℤ
  pub stream : Bool
  pub include_usage : Bool
  pub tools : List Tool
  pub tool_choice : Option ToolChoice

text_parts : List ContentBlock → List Text
text_parts [] = []
text_parts (b ∷ bs) =
    let rest = text_parts bs in
    if text_eq (type_of b) (codes "text") then block_text b ∷ rest else rest

texts_message : Message → OutMessage
unfolding text_parts
texts_message m = message m.role (some (concat (text_parts m.content)))

pub texts_of : Text → List Message → List OutMessage
unfolding texts_message
texts_of system ms = system_message system ++ map texts_message ms

plain_tool : AnthropicTool → Tool
plain_tool t = record { name = t.name; description = t.description; parameters = t.input_schema }

or_none : Option (List AnthropicTool) → List Tool
unfolding plain_tool
or_none none = []
or_none (some ts) = map plain_tool ts

plain_tools : Option Json → List Tool
unfolding or_none
plain_tools none = []
plain_tools (some v) = or_none (read_list anthropic_tool_of [] v)

plain_choice : Text → Text → Option ToolChoice
plain_choice type name =
    if text_eq type (codes "auto")
    then some auto
    else if text_eq type (codes "any")
    then some required
    else if text_eq type (codes "tool")
    then some (function name)
    else none

choice_of : Option Json → Option ToolChoice
unfolding plain_choice
choice_of none = none
choice_of (some v) = do
  fs ← top v
  type ← str_field (codes "type") fs
  name ← str_field (codes "name") fs
  plain_choice type name

pub anthropic_to_openai : (Json → Text) → AnthropicRequest → Text → Body
unfolding texts_of plain_tools choice_of
anthropic_to_openai raw req model_id = record {
  model = model_id;
  messages = texts_of (system_text raw req.system) req.messages;
  max_tokens = req.max_tokens;
  stream = true;
  include_usage = true;
  tools = plain_tools req.tools;
  tool_choice = choice_of req.tool_choice;
}

-- A message of texts only, of which there is at least one.
pub data IsTexts : Message → Type 0 where
  texts :
      (role s : Text) (ss : List Text)
      → IsTexts (record { role = role; content = map text_block (s ∷ ss) })

text_parts-texts : (ss : List Text) → text_parts (map text_block ss) ≡ ss
unfolding text_parts text_eq
text_parts-texts [] = refl
text_parts-texts (s ∷ ss) = ap (λ t. s ∷ t) (text_parts-texts ss)

parts-texts :
    (ss : List Text)
    → parts (map text_block ss) ≡ record { texts = ss; tool_calls = []; tool_results = [] }
unfolding parts text_eq
parts-texts [] = refl
parts-texts (s ∷ ss) = rw (parts-texts ss) refl

convert_message-texts : (m : Message) → IsTexts m → convert_message m ≡ texts_message m ∷ []
unfolding convert_message texts_message text_message assistant_message
convert_message-texts m (texts role s ss) =
    ap (from_parts role) (parts-texts (s ∷ ss))
    ∙ same
    ∙ ap (λ l. message role (some (concat l)) ∷ []) (sym (text_parts-texts (s ∷ ss)))
  where
    from_parts : Text → Parts → List OutMessage
    from_parts r p =
        if text_eq r (codes "assistant")
        then assistant_message p ∷ []
        else p.tool_results ++ text_message r p.texts

    same :
        from_parts role (record { texts = s ∷ ss; tool_calls = []; tool_results = [] })
        ≡ message role (some (concat (s ∷ ss))) ∷ []
    same = elim (Bool-cases (text_eq role (codes "assistant"))) [
      | inl y ↦ rw y (
          ap (λ r. message r (some (concat (s ∷ ss))) ∷ [])
            (sym ((text_eq_iff role (codes "assistant")).0 y)))
      | inr n ↦ rw n refl
    ]

messages-texts :
    (ms : List Message) → All IsTexts ms → flatten (map convert_message ms) ≡ map texts_message ms
messages-texts [] h = refl
messages-texts (m ∷ ms) h = ap₂ ◌++◌ (convert_message-texts m h.0) (messages-texts ms h.1)

-- On a conversation of texts only, where no message is empty, the two convertors to the format of OpenAI
-- make the same messages of a request, and they agree on the model, the limit of tokens and the stream
-- options.
pub convert_to_openai-texts :
    (raw : Json → Text) (req : AnthropicRequest) (model_id : Text)
    → All IsTexts req.messages
    → let a = anthropic_to_openai raw req model_id in
      let b = convert_to_openai raw req model_id in
      (a.messages ≡ b.messages)
      × (a.model ≡ b.model)
      × (a.max_tokens ≡ b.max_tokens)
      × (a.stream ≡ b.stream)
      × (a.include_usage ≡ b.include_usage)
unfolding anthropic_to_openai convert_to_openai convert_messages texts_of
convert_to_openai-texts raw req model_id h = (
  ap (λ l. system_message (system_text raw req.system) ++ l) (sym (messages-texts req.messages h)),
  refl,
  refl,
  refl,
  refl,
)
