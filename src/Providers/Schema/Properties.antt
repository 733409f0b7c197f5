-- ===== src/Providers/Schema/Properties.antt =====
-- The properties of a sanitized schema.
use claude_code_router.Common.{
  ==_iff, ◌≡◌, refl, sym, ap, subst, ◌∙◌, Text, codes, text_eq, Bool, true, false, not, ◌||◌, ◌==◌,
  if◌then◌else◌, Option, none, some, length, Bool-cases, inl, inr, arith,
}
use claude_code_router.Json.{Json, Fields, obj}
use claude_code_router.Json.Dict.{
  get, remove, dict, members, last, get-remove, get-dict, dict-IsMap, remove-IsMap, last-members,
}
use claude_code_router.Json.Equal.{json_eq_sound}
use claude_code_router.Providers.Schema.{
  Pass, prune_properties, conflicting, sanitize, each_member, each_properties, removed_names,
}
use claude_code_router.Providers.Schema.Passes.{
  opt_map, last-each_member, get-prune_properties, changed, none_removed,
}
use claude_code_router.Providers.Schema.Members.{
  first-pruned, member, start, first, member-sanitize, get-second, get-third, items_first,
  additional_second,
}

-- The properties of a map without the conflicting ones, each sanitized.
get_kept :
    (k : Text) (gs : Fields)
    → get k (remove conflicting (dict (each_member gs)))
      ≡ (if conflicting k then none else opt_map sanitize (last k gs))
get_kept k gs =
    get-remove conflicting k (dict (each_member gs))
    ∙ rw (get-dict k (each_member gs), last-each_member k gs) refl

last_kept :
    (k : Text) (gs : Fields)
    → last k (members (remove conflicting (dict (each_member gs))))
      ≡ (if conflicting k then none else opt_map sanitize (last k gs))
last_kept k gs =
    last-members k _ (remove-IsMap conflicting _ (dict-IsMap (each_member gs))) ∙ get_kept k gs

-- Where nothing changes the properties were like that before.
last_unchanged :
    (k : Text) (gs : Fields)
    → changed (dict gs) (dict (each_member gs)) ≡ false
    → last k gs ≡ (if conflicting k then none else opt_map sanitize (last k gs))
last_unchanged k gs h =
    let (none_gone, same) = both_hold (length (removed_names (dict gs)) == 0) _ h in
    elim (Bool-cases (conflicting k)) [
      | inl c ↦ rw c (sym (get-dict k gs) ∙ none_removed k (dict gs) ((==_iff _ 0).0 none_gone) c)
      | inr n ↦
          sym (
            last-members k _ (remove-IsMap conflicting _ (dict-IsMap gs))
            ∙ get-remove conflicting k (dict gs)
            ∙ rw n (get-dict k gs))
          ∙ ap (member k) (json_eq_sound _ _ same)
          ∙ last_kept k gs
    ]
  where
    both_hold : (a b : Bool) → (not a || not b) ≡ false → (a ≡ true) × (b ≡ true)
    both_hold a b e = ground arith

abbrev pub IsPruned : Fields → Option Json → Type 0
IsPruned gs o =
    (q : Fields) × (o ≡ some (obj q))
    × ((k : Text) → last k q ≡ (if conflicting k then none else opt_map sanitize (last k gs)))

get-properties-IsPruned :
    (gs : Fields) (p : Pass)
    → get (codes "properties") p.object ≡ some (obj gs)
    → IsPruned gs
        (get (codes "properties") (prune_properties (dict gs) (dict (each_member gs)) p).object)
unfolding text_eq
get-properties-IsPruned gs p h = elim (Bool-cases (changed (dict gs) (dict (each_member gs)))) [
  | inl y ↦ (
    members (remove conflicting (dict (each_member gs))),
    get-prune_properties (codes "properties") (dict gs) _ p refl ∙ rw y refl,
    λ k. last_kept k gs,
  )
  | inr n ↦ (
    gs,
    get-prune_properties (codes "properties") (dict gs) _ p refl ∙ rw n h,
    λ k. last_unchanged k gs n,
  )
]

pub get-third_properties :
    (fs : Fields)
    → member (codes "properties") (sanitize (obj fs))
      ≡ get (codes "properties") (first fs (each_properties fs)).object
unfolding text_eq
get-third_properties fs =
    member-sanitize (codes "properties") fs
    ∙ get-third (codes "properties") fs (additional_second fs)
    ∙ get-second (codes "properties") fs (items_first fs)

pub member-sanitize_properties :
    (fs gs : Fields)
    → last (codes "properties") fs ≡ some (obj gs)
    → IsPruned gs (member (codes "properties") (sanitize (obj fs)))
member-sanitize_properties fs gs h =
    let (e, f) = first-pruned fs gs h in
    subst (λ o. IsPruned gs o)
      (sym (get-third_properties fs ∙ ap (λ p. get (codes "properties") p.object) f))
      (get-properties-IsPruned gs (start fs) e)
