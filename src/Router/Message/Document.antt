-- ===== src/Router/Message/Document.antt =====
-- router/sse.go, the rest of sseBytesToMessage: the loop over the lines, the blocks in the order of
-- their indices, and the document. The final json.Marshal is left to the caller.
use claude_code_router.Common.{
  ℕ, Text, codes, text_eq, Bool, true, false, leb, if◌then◌else◌, List, [], ◌∷◌, Option, none, some,
}
use claude_code_router.Json.{
  ℤ, pos, negsuc, Json, null, int, str, arr, obj, Items, nil, cons, end, field,
}
use claude_code_router.Json.Decode.{◌>>=◌}
use claude_code_router.Events.{classify}
use claude_code_router.Events.Lines.{scan_lines}
use claude_code_router.Router.Message.{BlockState, Builder, new_builder, on_line}

read_lines : (Text → Option Json) → List Text → Builder → Builder
unfolding on_line
read_lines decode [] b = b
read_lines decode (l ∷ ls) b = read_lines decode ls (on_line decode (classify l) b)

-- sort.Ints
int_le : ℤ → ℤ → Bool
int_le (pos m) (pos n) = leb m n
int_le (pos m) (negsuc n) = false
int_le (negsuc m) (pos n) = true
int_le (negsuc m) (negsuc n) = leb n m

insert_int : ℤ → List ℤ → List ℤ
unfolding int_le
insert_int i [] = i ∷ []
insert_int i (j ∷ js) = if int_le i j then i ∷ j ∷ js else j ∷ insert_int i js

sort_ints : List ℤ → List ℤ
unfolding insert_int
sort_ints [] = []
sort_ints (i ∷ is) = insert_int i (sort_ints is)

empty_or : Option Json → Json
empty_or none = obj end
empty_or (some v) = v

-- The accumulated JSON of a tool call; an empty or invalid text counts as {}.
tool_input : (Text → Option Json) → Text → Json
unfolding empty_or
tool_input decode [] = obj end
tool_input decode (b ∷ s) = empty_or (decode (b ∷ s))

block_document : (Text → Option Json) → BlockState → Option Json
unfolding tool_input
block_document decode s =
    if text_eq s.block_type (codes "text")
    then some
        (obj (field (codes "type") (str (codes "text")) (field (codes "text") (str s.text) end)))
    else if text_eq s.block_type (codes "thinking")
    then some (
        obj (
          field (codes "type") (str (codes "thinking"))
            (field (codes "thinking") (str s.thinking) end)))
    else if text_eq s.block_type (codes "tool_use")
    then some (
        obj (
          field (codes "type") (str (codes "tool_use")) (
            field (codes "id") (str s.tool_id) (
              field (codes "name") (str s.tool_name)
                (field (codes "input") (tool_input decode s.tool_json) end)))))
    else none

cons_some : Option Json → Items → Items
cons_some none vs = vs
cons_some (some v) vs = cons v vs

content_of : (Text → Option Json) → (ℤ → Option BlockState) → List ℤ → Items
unfolding block_document cons_some
content_of decode blocks [] = nil
content_of decode blocks (i ∷ is) =
    cons_some (blocks i >>= block_document decode) (content_of decode blocks is)

optional : Option Text → Json
optional none = null
optional (some s) = str s

pub message_document : (Text → Option Json) → Builder → Json
unfolding content_of sort_ints optional
message_document decode b = obj (
    field (codes "content") (arr (content_of decode b.blocks (sort_ints b.order))) (
      field (codes "id") (str b.msg_id) (
        field (codes "model") (str b.model) (
          field (codes "role") (str (codes "assistant")) (
            field (codes "stop_reason") (str b.stop_reason) (
              field (codes "stop_sequence") (optional b.stop_sequence) (
                field (codes "type") (str (codes "message")) (
                  field (codes "usage")
                    (obj (
                      field (codes "input_tokens") (int b.input_tokens)
                        (field (codes "output_tokens") (int b.output_tokens) end)))
                    end))))))))

-- The buffer that the scanner is given.
abbrev max_token : ℕ
max_token = 1_048_576

pub sse_bytes_to_message : (Text → Option Json) → Text → Json
unfolding read_lines message_document new_builder
sse_bytes_to_message decode sse =
    message_document decode (read_lines decode (scan_lines max_token sse).0 new_builder)
