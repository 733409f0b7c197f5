-- ===== src/Router/BlockEvents.antt =====
-- The structs that the converter of router/convert.go and the message of router/sse.go decode the
-- block events into: both declare the same fields.
use claude_code_router.Common.{Text, codes, Option, some}
use claude_code_router.Json.{ℤ, Json}
use claude_code_router.Json.Decode.{str_field, int_field, obj_field, top, ◌>>=◌}

pub record BlockStart : Type 0 where
  pub index : ℤ
  pub type : Text
  pub id : Text
  pub name : Text

pub record BlockDelta : Type 0 where
  pub index : ℤ
  pub type : Text
  pub text : Text
  pub thinking : Text
  pub partial_json : Text

unfoldable pub block_start_of : Json → Option BlockStart
block_start_of v = do
  fs ← top v
  i ← int_field (codes "index") fs
  b ← obj_field (codes "content_block") fs
  t ← str_field (codes "type") b
  id ← str_field (codes "id") b
  n ← str_field (codes "name") b
  some (record { index = i; type = t; id = id; name = n })

unfoldable pub block_delta_of : Json → Option BlockDelta
block_delta_of v = do
  fs ← top v
  i ← int_field (codes "index") fs
  d ← obj_field (codes "delta") fs
  t ← str_field (codes "type") d
  s ← str_field (codes "text") d
  th ← str_field (codes "thinking") d
  p ← str_field (codes "partial_json") d
  some (record { index = i; type = t; text = s; thinking = th; partial_json = p })
