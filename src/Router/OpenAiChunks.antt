-- ===== src/Router/OpenAiChunks.antt =====
-- router/convert.go, the OpenAI SSE output types.
use claude_code_router.Common.{ℕ, Text, List, Option}
use claude_code_router.Json.{ℤ}

pub record ToolCallDelta : Type 0 where
  pub index : ℕ
  pub id : Text
  pub type : Text
  pub name : Text
  pub arguments : Text

pub record Delta : Type 0 where
  pub role : Text
  pub content : Text
  pub reasoning_content : Text
  pub tool_calls : List ToolCallDelta

-- openAIChunkOut with its one choice; `usage` is the completion tokens of openAIUsageOut.
pub record Chunk : Type 0 where
  pub id : Text
  pub model : Text
  pub delta : Delta
  pub finish_reason : Option Text
  pub usage : Option ℤ

pub data Emitted : Type 0 where
  chunk : Chunk → Emitted
  done : Emitted
