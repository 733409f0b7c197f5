-- ===== src/Tests/Schemas.antt =====
-- Tool schemas before and after sanitizing, and a body before and after patching.
use claude_code_router.Common.{
  ◌≡◌, refl, Text, codes, false, Option, some, ◌||◌, if◌then◌else◌, text_eq,
}
use claude_code_router.Json.{
  pos, Json, Items, Fields, null, bool, int, str, arr, obj, nil, cons, end, field,
}
use claude_code_router.Json.Dict.{last}
use claude_code_router.Providers.Schema.{sanitize}
use claude_code_router.Providers.Schema.Passes.{opt_map}
use claude_code_router.Providers.Schema.Members.{member, member-sanitize_other}
use claude_code_router.Providers.Schema.Clean.{IsClean, sanitize-IsClean}
use claude_code_router.Providers.Anthropic.Patch.{
  patch_anthropic_body, patch_anthropic_body-members, patched, patched_member,
}

abbrev text_schema : Json
text_schema = obj (field (codes "type") (str (codes "string")) end)

-- {"type": "object", "properties": …, "required": …}
abbrev schema : Fields → Items → Fields
schema props required =
    field (codes "type") (str (codes "object"))
      (field (codes "properties") (obj props) (field (codes "required") (arr required) end))

abbrev inner_properties : Fields
inner_properties = field (codes "type") text_schema (field (codes "name") text_schema end)

abbrev inner : Fields
inner = schema inner_properties (cons (str (codes "type")) (cons (str (codes "name")) nil))

abbrev inner_clean : Fields
inner_clean = field (codes "properties") (obj (field (codes "name") text_schema end)) (
    field (codes "required") (arr (cons (str (codes "name")) nil))
      (field (codes "type") (str (codes "object")) end))

abbrev outer : Fields
outer = schema (field (codes "rows") (obj (field (codes "items") (obj inner) end)) end) nil

sanitized_inner : sanitize (obj inner) ≡ obj inner_clean
unfolding sanitize last text_eq claude_code_router.Json.Dict.dict
    claude_code_router.Providers.Schema.conflicting claude_code_router.Json.Dict.get
    claude_code_router.Json.Decode.each claude_code_router.Json.Dict.members
    claude_code_router.Json.Dict.remove
sanitized_inner = refl

-- A schema without the conflict is sent as it came.
untouched : sanitize text_schema ≡ text_schema
unfolding sanitize last text_eq
untouched = refl

sanitized_outer :
    sanitize (obj outer)
    ≡ obj (
        field
          (codes "properties")
          (obj (field (codes "rows") (obj (field (codes "items") (obj inner_clean) end)) end))
          (field (codes "required") (arr nil) (field (codes "type") (str (codes "object")) end)))
unfolding sanitize last text_eq claude_code_router.Json.Dict.dict
    claude_code_router.Providers.Schema.conflicting claude_code_router.Json.Equal.json_eq
    claude_code_router.Json.Dict.members claude_code_router.Json.Dict.remove
    claude_code_router.Json.Dict.get claude_code_router.Json.Decode.each
sanitized_outer = refl

sanitize-IsClean_example : IsClean (sanitize (obj outer))
sanitize-IsClean_example = sanitize-IsClean (obj outer)

member-sanitize_other_example : member (codes "type") (sanitize (obj outer)) ≡ (
    if text_eq (codes "additionalProperties") (codes "type")
      || text_eq (codes "items") (codes "type")
    then opt_map sanitize (last (codes "type") outer)
    else last (codes "type") outer)
unfolding text_eq
member-sanitize_other_example = member-sanitize_other (codes "type") outer refl refl

abbrev client_body : Fields
client_body =
    field (codes "model") (str (codes "opus"))
      (field (codes "stream") (bool false) (field (codes "metadata") null end))

abbrev reads : Text → Option Json
reads s = some (obj client_body)

patch_anthropic_body-members_example :
    (gs : Fields) × (patch_anthropic_body reads (codes "m") (pos 8192) (codes "{}")
      ≡ patched (obj gs))
    × ((k : Text) → last k gs ≡ patched_member (codes "m") (pos 8192) k (last k client_body))
patch_anthropic_body-members_example =
    patch_anthropic_body-members reads (codes "m") (pos 8192) (codes "{}") client_body refl
