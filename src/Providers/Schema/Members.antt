-- ===== src/Providers/Schema/Members.antt =====
-- What sanitizeParameterSchema makes of a schema.
use claude_code_router.Common.{
  some, ◌≡◌, refl, sym, ap, ◌∙◌, Text, codes, text_eq, text_eq_iff, Bool, true, false, ◌||◌,
  if◌then◌else◌, Option, none,
}
use claude_code_router.Json.{Json, Fields, obj, null, bool, int, other_number, str, arr}
use claude_code_router.Json.Dict.{
  remove, get, dict, members, last, get-dict, dict-IsMap, last-members,
}
use claude_code_router.Json.Decode.{◌>>=◌}
use claude_code_router.Json.Equal.{json_eq}
use claude_code_router.Providers.Schema.{
  prune_properties, Pass, nested, properties, as_dict, sanitize, each_member, each_properties,
}
use claude_code_router.Providers.Schema.Passes.{
  last-each_properties, opt_map, last-each_member, IsPass, nested-IsPass, properties-IsPass,
  get-nested, get-properties,
}

-- A member of a document, which is an object or has none.
abbrev pub member : Text → Json → Option Json
member k (obj fs) = last k fs
member k _ = none

pub start : Fields → Pass
start fs = record { object = dict fs; modified = false }

pub first : Fields → Fields → Pass
unfolding start
first fs inner =
    properties (last (codes "properties") fs >>= as_dict)
      (last (codes "properties") inner >>= as_dict) (start fs)

pub second : Fields → Fields → Fields → Pass
unfolding first
second fs sane inner =
    nested (codes "items") (last (codes "items") fs) (last (codes "items") sane) (first fs inner)

pub third : Fields → Fields → Fields → Pass
unfolding second
third fs sane inner =
    nested (codes "additionalProperties") (last (codes "additionalProperties") fs)
      (last (codes "additionalProperties") sane) (second fs sane inner)

start-IsPass : (fs : Fields) → IsPass fs (start fs)
unfolding start
start-IsPass fs = record { map = dict-IsMap fs; fresh = λ e. refl }

third-IsPass : (fs sane inner : Fields) → IsPass fs (third fs sane inner)
unfolding third
third-IsPass fs sane inner =
    nested-IsPass _ _ _ _ (nested-IsPass _ _ _ _ (properties-IsPass _ _ _ (start-IsPass fs)))

-- A member of the result is what the object of the last step has.
member-printed :
    (k : Text) (fs : Fields) (p : Pass)
    → IsPass fs p
    → member k (if p.modified then obj (members p.object) else obj fs) ≡ get k p.object
member-printed k fs p h = printed p.modified refl
  where
    printed :
        (b : Bool)
        → p.modified ≡ b
        → member k (if b then obj (members p.object) else obj fs) ≡ get k p.object
    printed true e = last-members k p.object h.map
    printed false e = sym (get-dict k fs) ∙ ap (get k) (sym (h.fresh e))

pub member-sanitize :
    (k : Text) (fs : Fields)
    → member k (sanitize (obj fs)) ≡ get k (third fs (each_member fs) (each_properties fs)).object
unfolding sanitize third
member-sanitize k fs =
    member-printed k fs (third fs (each_member fs) (each_properties fs)) (third-IsPass fs _ _)

get-first :
    (k : Text) (fs : Fields)
    → text_eq (codes "required") k ≡ false
    → text_eq (codes "properties") k ≡ false
    → get k (first fs (each_properties fs)).object ≡ last k fs
unfolding first
get-first k fs n m = get-properties k _ _ (start fs) n m ∙ get-dict k fs

pub get-second :
    (k : Text) (fs : Fields)
    → get (codes "items") (first fs (each_properties fs)).object ≡ last (codes "items") fs
    → get k (second fs (each_member fs) (each_properties fs)).object ≡ (
        if text_eq (codes "items") k
        then opt_map sanitize (last (codes "items") fs)
        else get k (first fs (each_properties fs)).object)
unfolding second
get-second k fs h =
    rw (last-each_member (codes "items") fs)
      (get-nested (codes "items") k (last (codes "items") fs) (first fs (each_properties fs)) h)

pub get-third :
    (k : Text) (fs : Fields)
    → get (codes "additionalProperties") (second fs (each_member fs) (each_properties fs)).object
      ≡ last (codes "additionalProperties") fs
    → get k (third fs (each_member fs) (each_properties fs)).object ≡ (
        if text_eq (codes "additionalProperties") k
        then opt_map sanitize (last (codes "additionalProperties") fs)
        else get k (second fs (each_member fs) (each_properties fs)).object)
unfolding third
get-third k fs h = rw (last-each_member (codes "additionalProperties") fs) (
    get-nested (codes "additionalProperties") k (last (codes "additionalProperties") fs)
      (second fs (each_member fs) (each_properties fs)) h)

pub items_first :
    (fs : Fields)
    → get (codes "items") (first fs (each_properties fs)).object ≡ last (codes "items") fs
unfolding text_eq
items_first fs = get-first (codes "items") fs refl refl

pub additional_second :
    (fs : Fields)
    → get (codes "additionalProperties") (second fs (each_member fs) (each_properties fs)).object
      ≡ last (codes "additionalProperties") fs
unfolding text_eq
additional_second fs =
    get-second (codes "additionalProperties") fs (items_first fs)
    ∙ get-first (codes "additionalProperties") fs refl refl

-- Beside the properties and the list of required names, the schemas under `items` and
-- `additionalProperties` are replaced by their sanitized forms and every other member is as it was.
pub member-sanitize_other :
    (k : Text) (fs : Fields)
    → text_eq (codes "required") k ≡ false
    → text_eq (codes "properties") k ≡ false
    → member k (sanitize (obj fs)) ≡ (
        if text_eq (codes "additionalProperties") k || text_eq (codes "items") k
        then opt_map sanitize (last k fs)
        else last k fs)
member-sanitize_other k fs n m =
    member-sanitize k fs
    ∙ get-third k fs (additional_second fs)
    ∙ rw (get-second k fs (items_first fs)) (
        rw (get-first k fs n m) (
          joined (text_eq (codes "additionalProperties") k) (text_eq (codes "items") k)
            (λ e. (text_eq_iff _ k).0 e) (λ e. (text_eq_iff _ k).0 e)))
  where
    joined :
        (a i : Bool)
        → (a ≡ true → codes "additionalProperties" ≡ k)
        → (i ≡ true → codes "items" ≡ k)
        → (if a
            then opt_map sanitize (last (codes "additionalProperties") fs)
            else if i
            then opt_map sanitize (last (codes "items") fs)
            else last k fs)
          ≡ (if a || i then opt_map sanitize (last k fs) else last k fs)
    joined true i h g = ap (λ x. opt_map sanitize (last x fs)) (h refl)
    joined false true h g = ap (λ x. opt_map sanitize (last x fs)) (g refl)
    joined false false h g = refl

get-start : (k : Text) (fs : Fields) → get k (start fs).object ≡ last k fs
unfolding start
get-start k fs = get-dict k fs

pub first-pruned :
    (fs gs : Fields)
    → last (codes "properties") fs ≡ some (obj gs)
    → (get (codes "properties") (start fs).object ≡ some (obj gs))
      × (first fs (each_properties fs)
          ≡ prune_properties (dict gs) (dict (each_member gs)) (start fs))
unfolding first properties sanitize
first-pruned fs gs h = (
  get-start (codes "properties") fs ∙ h,
  rw (last-each_properties (codes "properties") fs, h) refl,
)

-- Properties that are no object are left alone.
abbrev pub IsOpaque : Option Json → Type 0
IsOpaque (some (obj gs)) = ⊥
IsOpaque _ = Unit

pub first-opaque :
    (fs : Fields) (o : Option Json)
    → last (codes "properties") fs ≡ o
    → IsOpaque o
    → get (codes "properties") (first fs (each_properties fs)).object ≡ o
unfolding first properties sanitize prune_properties json_eq members remove
first-opaque fs none h u =
    rw (last-each_properties (codes "properties") fs, h) (get-start (codes "properties") fs ∙ h)
first-opaque fs (some null) h u =
    rw (last-each_properties (codes "properties") fs, h) (get-start (codes "properties") fs ∙ h)
first-opaque fs (some (bool b)) h u =
    rw (last-each_properties (codes "properties") fs, h) (get-start (codes "properties") fs ∙ h)
first-opaque fs (some (int n)) h u =
    rw (last-each_properties (codes "properties") fs, h) (get-start (codes "properties") fs ∙ h)
first-opaque fs (some (other_number t)) h u =
    rw (last-each_properties (codes "properties") fs, h) (get-start (codes "properties") fs ∙ h)
first-opaque fs (some (str t)) h u =
    rw (last-each_properties (codes "properties") fs, h) (get-start (codes "properties") fs ∙ h)
first-opaque fs (some (arr vs)) h u =
    rw (last-each_properties (codes "properties") fs, h) (get-start (codes "properties") fs ∙ h)
first-opaque fs (some (obj gs)) h u = absurd u

pub sanitized_object : (fs : Fields) → (q : Fields) × (sanitize (obj fs) ≡ obj q)
unfolding sanitize third
sanitized_object fs = printed (third fs (each_member fs) (each_properties fs)).modified refl
  where
    r : Pass
    r = third fs (each_member fs) (each_properties fs)

    printed :
        (b : Bool)
        → r.modified ≡ b
        → (q : Fields) × ((if r.modified then obj (members r.object) else obj fs) ≡ obj q)
    printed true e = (members r.object, rw e refl)
    printed false e = (fs, rw e refl)
