-- ===== src/Providers/OpenAi/Decode.antt =====
-- providers/openai.go: openAIChunk, and how a chunk is decoded. A key that comes twice in one object
-- replaces the array or the pointer that it held.
use claude_code_router.Common.{Text, codes, List, [], Option, none, some}
use claude_code_router.Json.{ℤ, Json, null, obj, fields}
use claude_code_router.Json.Decode.{
  each, read_list, member, str_field, int_field, obj_field, str_ptr_field, top, ◌>>=◌,
}

pub record ToolCall : Type 0 where
  pub index : ℤ
  pub id : Text
  pub name : Text
  pub arguments : Text

pub record Choice : Type 0 where
  pub content : Text
  pub reasoning_content : Text
  pub reasoning : Text
  pub tool_calls : List ToolCall
  pub finish_reason : Option Text

pub record Chunk : Type 0 where
  pub id : Text
  pub choices : List Choice
  pub usage : Option (ℤ × ℤ)

tool_call_of : Json → Option ToolCall
tool_call_of v = do
  fs ← top v
  i ← int_field (codes "index") fs
  id ← str_field (codes "id") fs
  t ← str_field (codes "type") fs
  f ← obj_field (codes "function") fs
  n ← str_field (codes "name") f
  a ← str_field (codes "arguments") f
  some (record { index = i; id = id; name = n; arguments = a })

choice_of : Json → Option Choice
unfolding each tool_call_of
choice_of v = do
  fs ← top v
  i ← int_field (codes "index") fs
  d ← obj_field (codes "delta") fs
  role ← str_field (codes "role") d
  c ← str_field (codes "content") d
  rc ← str_field (codes "reasoning_content") d
  r ← str_field (codes "reasoning") d
  ts ← member (read_list tool_call_of) [] (codes "tool_calls") d
  f ← str_ptr_field (codes "finish_reason") fs
  some (record {
    content = c;
    reasoning_content = rc;
    reasoning = r;
    tool_calls = ts;
    finish_reason = f;
  })

usage_of : List (Text × Json) → Option (ℤ × ℤ)
usage_of fs = do
  p ← int_field (codes "prompt_tokens") fs
  c ← int_field (codes "completion_tokens") fs
  some (p, c)

-- A pointer to the usage struct: null resets it.
read_usage : Option (ℤ × ℤ) → Json → Option (Option (ℤ × ℤ))
unfolding usage_of
read_usage old null = some none
read_usage old (obj gs) = do u ← usage_of (fields gs); some (some u)
read_usage old _ = none

pub chunk_of : Json → Option Chunk
unfolding choice_of read_usage each
chunk_of v = do
  fs ← top v
  id ← str_field (codes "id") fs
  o ← str_field (codes "object") fs
  cs ← member (read_list choice_of) [] (codes "choices") fs
  u ← member read_usage none (codes "usage") fs
  some (record { id = id; choices = cs; usage = u })
