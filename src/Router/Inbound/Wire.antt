-- ===== src/Router/Inbound/Wire.antt =====
-- A conversation on the wire, and what becomes of each of its messages.
use mathlib.Core.List.{append-nil, map-append}
use claude_code_router.Common.{
  flatten-append, inr, text_eq_iff, inl, arith, Bool-cases, All, false, ℕ, subst, sym, ◌∙◌, ap, map,
  ◌++◌, text_eq, flatten, ◌≡◌, refl, Text, codes, List, [], ◌∷◌, Option, none, some,
}
use claude_code_router.Json.{items, Json, Items, Fields, null, str, obj, arr, nil, cons, end, field}
use claude_code_router.Json.Decode.{◌>>=◌, read_list, each}
use claude_code_router.Providers.Outbound.{
  add_block, assistant_message, Parts, arguments_of, message, convert_message, parts, ToolCall,
  OutMessage,
}
use claude_code_router.Router.Inbound.{text_blocks, calls_of, tool_use, input_of}
use claude_code_router.Router.OpenAiRequest.{InMessage, InToolCall, in_tool_call_of}
use claude_code_router.Providers.Request.{
  no_blocks, text_block, block_and, block, ContentBlock, Message,
}

-- How a message of the client's conversation looks on the wire.
pub call_document : ToolCall → Json
call_document t = obj (
    field (codes "function")
      (obj (field (codes "arguments") (str t.arguments) (field (codes "name") (str t.name) end)))
      (field (codes "id") (str t.id) (field (codes "type") (str (codes "function")) end)))

pub call_items : List ToolCall → Items
unfolding call_document
call_items [] = nil
call_items (t ∷ ts) = cons (call_document t) (call_items ts)

pub content_document : Option Text → Json
content_document none = null
content_document (some s) = str s

pub calls_document : List ToolCall → Option Json
unfolding call_items
calls_document [] = none
calls_document (t ∷ ts) = some (arr (call_items (t ∷ ts)))

unfoldable pub wire : OutMessage → InMessage
unfolding calls_document content_document
wire m = record {
  role = m.role;
  content = some (content_document m.content);
  tool_calls = calls_document m.tool_calls;
  tool_call_id = m.tool_call_id;
}

pub in_call : ToolCall → InToolCall
in_call t = record { id = t.id; type = codes "function"; name = t.name; arguments = t.arguments }

in_tool_call_of-call_document :
    (t : ToolCall) → in_tool_call_of (call_document t) ≡ some (in_call t)
unfolding in_tool_call_of call_document in_call claude_code_router.Json.Decode.str_field
    claude_code_router.Json.Decode.obj_field
in_tool_call_of-call_document t = refl

each-call_items :
    (ts : List ToolCall) → each in_tool_call_of (items (call_items ts)) ≡ some (map in_call ts)
unfolding call_items each
each-call_items [] = refl
each-call_items (t ∷ ts) = rw (in_tool_call_of-call_document t, each-call_items ts) refl

-- What an OpenAI upstream is sent for the messages so far.
unfoldable pub sent : List Message → List OutMessage
sent ms = flatten (map convert_message ms)

pub sent-append : (ms ns : List Message) → sent (ms ++ ns) ≡ sent ms ++ sent ns
unfolding sent
sent-append ms ns =
    rw (map-append convert_message ms ns)
      (flatten-append (map convert_message ms) (map convert_message ns))

-- The result of a tool: its call's id and its text.
abbrev pub Result : Type 0
Result = Text × Text

abbrev pub result_block : Result → ContentBlock
result_block (id, s) =
    block (codes "tool_result") [] [] [] [] id (block_and (text_block s) no_blocks)

abbrev pub tool_message : Result → OutMessage
tool_message (id, s) = record {
  role = codes "tool";
  content = some s;
  tool_call_id = id;
  tool_calls = [];
}

pub parts-results :
    (rs : List Result)
    → parts (map result_block rs)
      ≡ record { texts = []; tool_calls = []; tool_results = map tool_message rs }
unfolding parts text_eq
parts-results [] = refl
parts-results ((id, s) ∷ rs) = rw (parts-results rs, append-nil s) refl

pub sent-results :
    (r : Result) (rs : List Result)
    → sent (record { role = codes "user"; content = map result_block (r ∷ rs) } ∷ [])
      ≡ map tool_message (r ∷ rs)
unfolding sent convert_message text_eq
sent-results r rs =
    rw (parts-results rs, append-nil r.1)
      (ap (λ t. tool_message r ∷ t) (append-nil _ ∙ append-nil _))

abbrev pub IsGiven : ToolCall → Type 0
IsGiven t = (text_eq t.arguments [] ≡ false) × (text_eq t.arguments (codes "null") ≡ false)

abbrev pub given : Text → Option Text
given [] = none
given (b ∷ s) = some (b ∷ s)

-- The messages that come through unchanged: texts and the arguments of calls are not empty, and an
-- assistant's message with calls may have no text.
pub data IsPlain : OutMessage → Type 0 where
  says :
      (role : Text) (b : ℕ) (s : Text)
      → text_eq role (codes "tool") ≡ false
      → text_eq role (codes "system") ≡ false
      → IsPlain (message role (some (b ∷ s)))
  calls :
      (text : List ℕ) (t : ToolCall) (ts : List ToolCall)
      → All IsGiven (t ∷ ts)
      → IsPlain (record {
        role = codes "assistant";
        content = given text;
        tool_call_id = [];
        tool_calls = t ∷ ts;
      })
  answers : (id s : Text) → IsPlain (tool_message (id, s))

pub convert_message-says :
    (role : Text) (b : ℕ) (s : Text)
    → convert_message (record { role = role; content = text_block (b ∷ s) ∷ [] })
      ≡ message role (some (b ∷ s)) ∷ []
unfolding convert_message parts text_eq
convert_message-says role b s = elim (Bool-cases (text_eq role (codes "assistant"))) [
  | inl y ↦
      subst
        (λ r.
          convert_message (record { role = r; content = text_block (b ∷ s) ∷ [] })
          ≡ message r (some (b ∷ s)) ∷ [])
        (sym ((text_eq_iff role (codes "assistant")).0 y)) (rw (append-nil s) refl)
  | inr n ↦ rw (n, append-nil s) refl
]

arguments_of-given :
    (a : Text)
    → text_eq a [] ≡ false
    → text_eq a (codes "null") ≡ false
    → arguments_of (input_of a) ≡ a
unfolding text_eq input_of arguments_of
arguments_of-given [] h k = cc
arguments_of-given (b ∷ s) h k = rw k refl

pub parts-calls :
    (ts : List ToolCall)
    → All IsGiven ts
    → parts (map tool_use (map in_call ts))
      ≡ record { texts = []; tool_calls = ts; tool_results = [] }
unfolding parts text_eq tool_use in_call arguments_of
parts-calls [] g = refl
parts-calls (t ∷ ts) g =
    rw (parts-calls ts g.1) (ap called (arguments_of-given t.arguments g.0.0 g.0.1))
  where
    called : Text → Parts
    called a = record {
      texts = [];
      tool_calls = record { id = t.id; name = t.name; arguments = a } ∷ ts;
      tool_results = [];
    }

pub calls_of-wire :
    (content : Option Text) (t : ToolCall) (ts : List ToolCall)
    → calls_of (
        wire (record {
          role = codes "assistant";
          content = content;
          tool_call_id = [];
          tool_calls = t ∷ ts;
        }))
      ≡ some (map in_call (t ∷ ts))
unfolding calls_of wire text_eq
calls_of-wire content t ts = each-call_items (t ∷ ts)

pub calls_of-says :
    (role : Text) (content : Option Text) → calls_of (wire (message role content)) ≡ none
unfolding calls_of wire
calls_of-says role content = ground arith

pub convert_message-calls :
    (content : List ℕ) (t : ToolCall) (ts : List ToolCall)
    → All IsGiven (t ∷ ts)
    → convert_message (record {
      role = codes "assistant";
      content = text_blocks content ++ map tool_use (map in_call (t ∷ ts));
    })
      ≡ record {
        role = codes "assistant";
        content = given content;
        tool_call_id = [];
        tool_calls = t ∷ ts;
      }
        ∷ []
unfolding convert_message text_blocks text_eq assistant_message parts
convert_message-calls [] t ts g = rw (parts-calls (t ∷ ts) g) refl
convert_message-calls (b ∷ s) t ts g =
    ap (λ p. assistant_message (add_block (text_block (b ∷ s)) p) ∷ []) (parts-calls (t ∷ ts) g)
    ∙ rw (append-nil s) refl
