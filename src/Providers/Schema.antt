-- ===== src/Providers/Schema.antt =====
-- providers/openai.go, sanitizeParameterSchema: properties that are called like the keyword "type" of JSON
-- Schema are taken out of a tool's parameter schema. A raw message is its document. What the function returns
-- is the raw message that it was given, or one that it printed anew after a change, which is another
-- document: so the comparison of the bytes is a comparison of the documents.
pub mod Passes
pub mod Members
pub mod Properties
pub mod Clean
use claude_code_router.Common.{
  Text, codes, text_eq, Bool, true, false, not, ◌||◌, ◌==◌, if◌then◌else◌, List, [], ◌∷◌, Option,
  none, some, select, map, length,
}
use claude_code_router.Json.{
  Json, Items, Fields, null, bool, int, other_number, str, arr, obj, nil, cons, end, field, items,
}
use claude_code_router.Json.Decode.{read_str, each, ◌>>=◌}
use claude_code_router.Json.Dict.{Dict, get, put, remove, dict, members, last}
use claude_code_router.Json.Equal.{json_eq}

-- nimConflictingProps
unfoldable pub conflicting : Text → Bool
conflicting k = text_eq k (codes "type")

-- json.Unmarshal into a map; null makes the map nil.
abbrev pub as_dict : Json → Option Dict
as_dict null = some []
as_dict (obj fs) = some (dict fs)
as_dict _ = none

-- json.Unmarshal into a slice of strings, null among them being empty.
abbrev as_strings : Json → Option (List Text)
as_strings null = some []
as_strings (arr vs) = each (read_str []) (items vs)
as_strings _ = none

is_in : Text → List Text → Bool
is_in k [] = false
is_in k (j ∷ js) = text_eq j k || is_in k js

string_items : List Text → Items
string_items [] = nil
string_items (s ∷ ss) = cons (str s) (string_items ss)

-- The variables obj and modified.
pub record Pass : Type 0 where
  pub object : Dict
  pub modified : Bool

abbrev pub store : Text → Json → Pass → Pass
store k v p = record { object = put k v p.object; modified = true }

abbrev pub store_if : Bool → Text → Json → Pass → Pass
store_if true k v p = store k v p
store_if false k v p = p

-- The names that stay in `required`, which may be missing or no list of strings.
filter_required : List Text → Option (List Text) → Pass → Pass
unfolding is_in string_items
filter_required removed none p = p
filter_required removed (some required) p =
    let filtered = select (λ r. not (is_in r removed)) required in
    if length filtered == length required
    then p
    else store (codes "required") (arr (string_items filtered)) p

prune_required : List Text → Pass → Pass
unfolding filter_required
prune_required removed p =
    filter_required removed (get (codes "required") p.object >>= as_strings) p

abbrev removed_names : Dict → List Text
removed_names props = select conflicting (map (λ p. p.0) props)

-- The properties `props`, whose sanitized schemas are `sane`.
pub prune_properties : Dict → Dict → Pass → Pass
unfolding prune_required
prune_properties props sane p =
    let kept = remove conflicting props in
    let kept' = remove conflicting sane in
    let removed = removed_names props in
    let changed =
      not (length removed == 0) || not (json_eq (obj (members kept)) (obj (members kept'))) in
    let p' = store_if changed (codes "properties") (obj (members kept')) p in
    if length removed == 0 then p' else prune_required removed p'

-- The maps that the properties and their sanitized schemas are, where they are maps.
pub properties : Option Dict → Option Dict → Pass → Pass
unfolding prune_properties
properties (some props) (some sane) p = prune_properties props sane p
properties _ _ p = p

-- The recursion into the schema under a key, whose sanitized form is `sane`.
pub nested : Text → Option Json → Option Json → Pass → Pass
nested k (some raw) (some sane) p = if json_eq sane raw then p else store k sane p
nested k _ _ p = p

-- The object `fs`, with the sanitized forms of its members and of their members.
pub finish : (fs sane inner : Fields) → Json
unfolding properties nested
finish fs sane inner =
    let start : Pass = record { object = dict fs; modified = false } in
    let p =
      properties (last (codes "properties") fs >>= as_dict)
        (last (codes "properties") inner >>= as_dict) start in
    let q = nested (codes "items") (last (codes "items") fs) (last (codes "items") sane) p in
    let r =
      nested (codes "additionalProperties") (last (codes "additionalProperties") fs)
        (last (codes "additionalProperties") sane) q in
    if r.modified then obj (members r.object) else obj fs

-- Every schema is sanitized with the schemas below it; `finish` reads those that the code asks for.
unfoldable mutual
  unfolding finish

  pub sanitize : Json → Json
  sanitize (obj fs) = finish fs (each_member fs) (each_properties fs)
  sanitize null = null
  sanitize (bool b) = bool b
  sanitize (int n) = int n
  sanitize (other_number t) = other_number t
  sanitize (str s) = str s
  sanitize (arr vs) = arr vs

  pub members_of : Json → Json
  members_of (obj fs) = obj (each_member fs)
  members_of null = null
  members_of (bool b) = bool b
  members_of (int n) = int n
  members_of (other_number t) = other_number t
  members_of (str s) = str s
  members_of (arr vs) = arr vs

  pub each_member : Fields → Fields
  each_member end = end
  each_member (field k v fs) = field k (sanitize v) (each_member fs)

  pub each_properties : Fields → Fields
  each_properties end = end
  each_properties (field k v fs) = field k (members_of v) (each_properties fs)
