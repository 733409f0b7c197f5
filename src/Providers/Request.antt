-- ===== src/Providers/Request.antt =====
-- providers/base.go: the request of the Messages API as the program keeps it, how its messages and
-- blocks are decoded, and SystemText. A raw message is the document that it holds, except for the
-- input of a tool, which the program also takes from and puts into plain strings: `raw` gives the
-- bytes of a value in its document. A Go slice of blocks below a block is a value of `Blocks`.
use claude_code_router.Common.{
  Text, codes, Bool, false, if◌then◌else◌, List, [], ◌∷◌, Option, none, some, text_eq, join,
}
use claude_code_router.Json.{
  fields, ℤ, Json, Items, Fields, null, bool, int, other_number, str, arr, obj, nil, cons, end,
  field,
}
use claude_code_router.Json.Decode.{
  names, member, str_field, int_field, top, read_list, read_str, ◌>>=◌,
}

mutual
  pub data ContentBlock : Type 0 where
    block : (type text id name input tool_use_id : Text) → Blocks → ContentBlock

  pub data Blocks : Type 0 where
    no_blocks : Blocks
    block_and : ContentBlock → Blocks → Blocks

abbrev pub block_list : Blocks → List ContentBlock
block_list no_blocks = []
block_list (block_and b bs) = b ∷ block_list bs

abbrev pub text_block : Text → ContentBlock
text_block s = block (codes "text") s [] [] [] [] no_blocks

pub record Message : Type 0 where
  pub role : Text
  pub content : List ContentBlock

-- A float is kept as the number that was read.
pub record AnthropicRequest : Type 0 where
  pub model : Text
  pub messages : List Message
  pub system : Option Json
  pub max_tokens : ℤ
  pub stream : Bool
  pub temperature : Option Json
  pub top_p : Option Json
  pub top_k : Option ℤ
  pub stop_sequences : List Text
  pub tools : Option Json
  pub tool_choice : Option Json
  pub thinking : Option Json
  pub metadata : Option Json
  pub raw_body : Text
  pub anthropic_beta : Text
  pub non_streaming : Bool

-- A field of type json.RawMessage takes any value, null too.
abbrev read_raw : Option Json → Json → Option (Option Json)
read_raw old v = some (some v)

unfoldable pub raw_field : Text → List (Text × Json) → Option (Option Json)
unfolding member names
raw_field name fs = member read_raw none name fs

read_bool : Bool → Json → Option Bool
read_bool b null = some b
read_bool b (bool c) = some c
read_bool b _ = none

unfoldable pub bool_field : Text → List (Text × Json) → Option Bool
unfolding member names read_bool
bool_field name fs = member read_bool false name fs

-- A pointer to a float.
read_number : Option Json → Json → Option (Option Json)
read_number p null = some none
read_number p (int n) = some (some (int n))
read_number p (other_number t) = some (some (other_number t))
read_number p _ = none

unfoldable pub number_field : Text → List (Text × Json) → Option (Option Json)
unfolding member names read_number
number_field name fs = member read_number none name fs

-- A pointer to an int.
read_int_ptr : Option ℤ → Json → Option (Option ℤ)
read_int_ptr p null = some none
read_int_ptr p (int n) = some (some n)
read_int_ptr p _ = none

unfoldable pub strings_field : Text → List (Text × Json) → Option (List Text)
unfolding member names
strings_field name fs = member (read_list (read_str [])) [] name fs

abbrev bytes_of : (Json → Text) → Option Json → Text
bytes_of raw none = []
bytes_of raw (some v) = raw v

-- A block with the content that was decoded.
scalars : (Json → Text) → List (Text × Json) → Blocks → Option ContentBlock
unfolding raw_field
scalars raw fs content = do
  type ← str_field (codes "type") fs
  text ← str_field (codes "text") fs
  id ← str_field (codes "id") fs
  name ← str_field (codes "name") fs
  input ← raw_field (codes "input") fs
  tool_use_id ← str_field (codes "tool_use_id") fs
  some (block type text id name (bytes_of raw input) tool_use_id content)

-- The content of a block is nil where the key is missing.
abbrev or_nil : Option (Option Blocks) → Option Blocks
or_nil none = some no_blocks
or_nil (some content) = content

abbrev last_content : Option (Option Blocks) → Option (Option Blocks) → Option (Option Blocks)
last_content none o = o
last_content (some c) o = some c

abbrev one_text : Text → Blocks
one_text s = block_and (text_block s) no_blocks

-- ContentBlock.UnmarshalJSON; `content_of` reads the last value of the key content.
unfoldable mutual
  unfolding scalars names

  pub block_of : (Json → Text) → Json → Option ContentBlock
  block_of raw null = scalars raw [] no_blocks
  block_of raw (obj fs) = or_nil (content_of raw fs) >>= scalars raw (fields fs)
  block_of raw (bool b) = none
  block_of raw (int n) = none
  block_of raw (other_number t) = none
  block_of raw (str s) = none
  block_of raw (arr vs) = none

  pub blocks_of : (Json → Text) → Items → Option Blocks
  blocks_of raw nil = some no_blocks
  blocks_of raw (cons v vs) =
      block_of raw v >>= λ b. blocks_of raw vs >>= λ bs. some (block_and b bs)

  -- A string, which null leaves empty, or an array of blocks.
  pub content_value : (Json → Text) → Json → Option Blocks
  content_value raw null = some (one_text [])
  content_value raw (str s) = some (one_text s)
  content_value raw (arr vs) = blocks_of raw vs
  content_value raw (obj fs) = none
  content_value raw (bool b) = none
  content_value raw (int n) = none
  content_value raw (other_number t) = none

  pub content_of : (Json → Text) → Fields → Option (Option Blocks)
  content_of raw end = none
  content_of raw (field k v fs) =
      last_content (content_of raw fs)
        (if names k (codes "content") then some (content_value raw v) else none)

-- Message.UnmarshalJSON
message_content : (Json → Text) → Option Json → Option (List ContentBlock)
message_content raw none = some []
message_content raw (some v) = content_value raw v >>= λ bs. some (block_list bs)

message_of : (Json → Text) → Json → Option Message
unfolding message_content raw_field
message_of raw v = do
  fs ← top v
  role ← str_field (codes "role") fs
  content ← raw_field (codes "content") fs
  bs ← message_content raw content
  some (record { role = role; content = bs })

unfoldable pub messages_field : (Json → Text) → List (Text × Json) → Option (List Message)
unfolding member names message_of
messages_field raw fs = member (read_list (message_of raw)) [] (codes "messages") fs

unfoldable pub int_ptr_field : Text → List (Text × Json) → Option (Option ℤ)
unfolding member names read_int_ptr
int_ptr_field name fs = member read_int_ptr none name fs

-- json.Unmarshal into the struct.
unfoldable pub request_of : (Json → Text) → Json → Option AnthropicRequest
request_of raw v = do
  fs ← top v
  model ← str_field (codes "model") fs
  messages ← messages_field raw fs
  system ← raw_field (codes "system") fs
  max_tokens ← int_field (codes "max_tokens") fs
  stream ← bool_field (codes "stream") fs
  temperature ← number_field (codes "temperature") fs
  top_p ← number_field (codes "top_p") fs
  top_k ← int_ptr_field (codes "top_k") fs
  stop ← strings_field (codes "stop_sequences") fs
  tools ← raw_field (codes "tools") fs
  tool_choice ← raw_field (codes "tool_choice") fs
  thinking ← raw_field (codes "thinking") fs
  metadata ← raw_field (codes "metadata") fs
  some (record {
    model = model;
    messages = messages;
    system = system;
    max_tokens = max_tokens;
    stream = stream;
    temperature = temperature;
    top_p = top_p;
    top_k = top_k;
    stop_sequences = stop;
    tools = tools;
    tool_choice = tool_choice;
    thinking = thinking;
    metadata = metadata;
    raw_body = [];
    anthropic_beta = [];
    non_streaming = false;
  })

abbrev pub type_of : ContentBlock → Text
type_of (block type text id name input tool_use_id content) = type

abbrev pub block_text : ContentBlock → Text
block_text (block type text id name input tool_use_id content) = text

texts : List ContentBlock → List Text
texts [] = []
texts (b ∷ bs) =
    let rest = texts bs in if text_eq (block_text b) [] then rest else block_text b ∷ rest

joined : Option Blocks → Text
unfolding texts
joined none = []
joined (some bs) = join (10 ∷ []) (texts (block_list bs))

unfoldable pub system_text : (Json → Text) → Option Json → Text
unfolding joined
system_text raw none = []
system_text raw (some null) = []
system_text raw (some (str s)) = s
system_text raw (some (arr vs)) = joined (blocks_of raw vs)
system_text raw (some _) = []
