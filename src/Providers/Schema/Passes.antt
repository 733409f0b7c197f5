-- ===== src/Providers/Schema/Passes.antt =====
-- What each step of sanitizeParameterSchema does to the object.
use claude_code_router.Common.{
  ◌&&◌, ◌≡◌, refl, ◌∙◌, Text, codes, text_eq, text_eq_iff, Bool, true, false, not, ◌||◌, ◌==◌,
  if◌then◌else◌, List, [], ◌∷◌, Option, none, some, length, select, Bool-cases, inl, inr, arith,
}
use claude_code_router.Json.{Json, Fields, obj, end, field}
use claude_code_router.Json.Dict.{
  Dict, IsMap, get, remove, dict, members, last, or_else, get-put, put-IsMap,
}
use claude_code_router.Json.Decode.{◌>>=◌}
use claude_code_router.Json.Equal.{json_eq, json_eq_sound}
use claude_code_router.Providers.Schema.{
  Pass, store, nested, properties, prune_properties, prune_required, store_if, filter_required,
  is_in, as_strings, conflicting, sanitize, members_of, each_member, each_properties, removed_names,
}

abbrev pub opt_map : (Json → Json) → Option Json → Option Json
opt_map f none = none
opt_map f (some v) = some (f v)

module _ (f : Json → Json) where
  or_else-opt_map :
      (o p : Option Json) → or_else (opt_map f o) (opt_map f p) ≡ opt_map f (or_else o p)
  or_else-opt_map none p = refl
  or_else-opt_map (some w) p = refl

  if-opt_map :
      (b : Bool) (v : Json)
      → (if b then some (f v) else none) ≡ opt_map f (if b then some v else none)
  if-opt_map true v = refl
  if-opt_map false v = refl

pub last-each_member :
    (k : Text) (fs : Fields) → last k (each_member fs) ≡ opt_map sanitize (last k fs)
unfolding last sanitize
last-each_member k end = refl
last-each_member k (field j v fs) =
    rw (last-each_member k fs, if-opt_map sanitize (text_eq j k) v)
      (or_else-opt_map sanitize (last k fs) (if text_eq j k then some v else none))

pub last-each_properties :
    (k : Text) (fs : Fields) → last k (each_properties fs) ≡ opt_map members_of (last k fs)
unfolding last sanitize
last-each_properties k end = refl
last-each_properties k (field j v fs) =
    rw (last-each_properties k fs, if-opt_map members_of (text_eq j k) v)
      (or_else-opt_map members_of (last k fs) (if text_eq j k then some v else none))

-- An unmodified object is still the one that was read.
pub record IsPass (fs : Fields) (p : Pass) : Type 0 where
  pub map : IsMap p.object
  pub fresh : p.modified ≡ false → p.object ≡ dict fs

pub store-IsPass :
    {fs : Fields} (k : Text) (v : Json) (p : Pass) → IsPass fs p → IsPass fs (store k v p)
store-IsPass k v p h = record { map = put-IsMap k v p.object h.map; fresh = λ e. cc }

module _ {fs : Fields} where
  pub nested-IsPass :
      (k : Text) (raw sane : Option Json) (p : Pass) → IsPass fs p → IsPass fs (nested k raw sane p)
  unfolding nested
  nested-IsPass k none sane p h = h
  nested-IsPass k (some r) none p h = h
  nested-IsPass k (some r) (some s) p h = elim (Bool-cases (json_eq s r)) [
    | inl y ↦ rw y h
    | inr n ↦ rw n (store-IsPass k s p h)
  ]

  filter_required-IsPass :
      (removed : List Text) (o : Option (List Text)) (p : Pass)
      → IsPass fs p
      → IsPass fs (filter_required removed o p)
  unfolding filter_required
  filter_required-IsPass removed none p h = h
  filter_required-IsPass removed (some r) p h =
      elim (Bool-cases (length (select (λ x. not (is_in x removed)) r) == length r)) [
        | inl y ↦ rw y h
        | inr n ↦ rw n (store-IsPass _ _ p h)
      ]

  store_if-IsPass :
      (b : Bool) (k : Text) (v : Json) (p : Pass) → IsPass fs p → IsPass fs (store_if b k v p)
  store_if-IsPass true k v p h = store-IsPass k v p h
  store_if-IsPass false k v p h = h

  steps-IsPass :
      (changed none_removed : Bool) (v : Json) (removed : List Text) (p : Pass)
      → IsPass fs p
      → IsPass fs (
          if none_removed
          then store_if changed (codes "properties") v p
          else prune_required removed (store_if changed (codes "properties") v p))
  unfolding prune_required
  steps-IsPass b true v removed p h = store_if-IsPass b _ v p h
  steps-IsPass b false v removed p h =
      filter_required-IsPass removed
        (get (codes "required") (store_if b (codes "properties") v p).object >>= as_strings) _
        (store_if-IsPass b (codes "properties") v p h)

  pub properties-IsPass :
      (props sane : Option Dict) (p : Pass) → IsPass fs p → IsPass fs (properties props sane p)
  unfolding properties prune_properties prune_required
  properties-IsPass none sane p h = h
  properties-IsPass (some r) none p h = h
  properties-IsPass (some r) (some s) p h = steps-IsPass _ (length (removed_names r) == 0) _ _ p h

pub get-nested :
    (j k : Text) (raw : Option Json) (p : Pass)
    → get j p.object ≡ raw
    → get k (nested j raw (opt_map sanitize raw) p).object
      ≡ (if text_eq j k then opt_map sanitize raw else get k p.object)
unfolding nested
get-nested j k none p e = ground (arith, text_eq_iff j k)
get-nested j k (some r) p e = elim (Bool-cases (json_eq (sanitize r) r)) [
  | inl y ↦ rw y (ground (arith, text_eq_iff j k, json_eq_sound (sanitize r) r))
  | inr n ↦ rw n (get-put k j (sanitize r) p.object)
]

get-filter_required :
    (k : Text) (removed : List Text) (o : Option (List Text)) (p : Pass)
    → text_eq (codes "required") k ≡ false
    → get k (filter_required removed o p).object ≡ get k p.object
unfolding filter_required
get-filter_required k removed none p n = refl
get-filter_required k removed (some r) p n =
    elim (Bool-cases (length (select (λ x. not (is_in x removed)) r) == length r)) [
      | inl y ↦ rw y refl
      | inr m ↦ rw m (get-put k (codes "required") _ p.object ∙ rw n refl)
    ]

get-store_if :
    (b : Bool) (j k : Text) (v : Json) (p : Pass)
    → get k (store_if b j v p).object ≡ (if text_eq j k && b then some v else get k p.object)
get-store_if true j k v p = get-put k j v p.object ∙ ground (arith, text_eq_iff j k)
get-store_if false j k v p = ground (arith, text_eq_iff j k)

get_steps :
    (b c : Bool) (k : Text) (v : Json) (removed : List Text) (p : Pass)
    → text_eq (codes "required") k ≡ false
    → get k
        (if c
          then store_if b (codes "properties") v p
          else prune_required removed (store_if b (codes "properties") v p)).object
      ≡ (if text_eq (codes "properties") k && b then some v else get k p.object)
unfolding prune_required
get_steps b true k v removed p n = get-store_if b (codes "properties") k v p
get_steps b false k v removed p n =
    get-filter_required k removed
      (get (codes "required") (store_if b (codes "properties") v p).object >>= as_strings)
      (store_if b (codes "properties") v p) n
    ∙ get-store_if b (codes "properties") k v p

abbrev pub changed : Dict → Dict → Bool
changed props sane =
    not (length (removed_names props) == 0)
    || not (
        json_eq (obj (members (remove conflicting props)))
          (obj (members (remove conflicting sane))))

pub get-prune_properties :
    (k : Text) (props sane : Dict) (p : Pass)
    → text_eq (codes "required") k ≡ false
    → get k (prune_properties props sane p).object ≡ (
        if text_eq (codes "properties") k && changed props sane
        then some (obj (members (remove conflicting sane)))
        else get k p.object)
unfolding prune_properties
get-prune_properties k props sane p n =
    get_steps (changed props sane) (length (removed_names props) == 0) k _ _ p n

-- The keys beside the properties and their list of required names.
pub get-properties :
    (k : Text) (props sane : Option Dict) (p : Pass)
    → text_eq (codes "required") k ≡ false
    → text_eq (codes "properties") k ≡ false
    → get k (properties props sane p).object ≡ get k p.object
unfolding properties
get-properties k none sane p n m = refl
get-properties k (some props) none p n m = refl
get-properties k (some props) (some sane) p n m = get-prune_properties k props sane p n ∙ rw m refl

pub none_removed :
    (k : Text) (d : Dict) → length (removed_names d) ≡ 0 → conflicting k ≡ true → get k d ≡ none
unfolding get
none_removed k [] h c = refl
none_removed k ((j, w) ∷ d) h c = elim (Bool-cases (conflicting j)) [
  | inl y ↦ absurd (omega (arith, rw y at h))
  | inr n ↦ elim (Bool-cases (text_eq j k)) [
    | inl y ↦ absurd (clash (rw ((text_eq_iff j k).0 y) at n))
    | inr m ↦ rw m (none_removed k d (rw n at h) c)
  ]
]
  where
    clash : conflicting k ≡ false → ⊥
    clash e = cc
