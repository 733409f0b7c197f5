-- ===== src/Providers/Schema/Clean.antt =====
-- A sanitized schema has no conflicting property left, at any depth that the code reaches.
use claude_code_router.Common.{
  ◌⊎◌, some_inj, ◌≢◌, ◌≡◌, refl, sym, ap, subst, ◌∙◌, Text, codes, text_eq, Bool, true, false,
  if◌then◌else◌, Option, none, some, inl, inr,
}
use claude_code_router.Json.{Json, Fields, null, bool, int, other_number, str, arr, obj, end, field}
use claude_code_router.Json.Dict.{or_else, last}
use claude_code_router.Providers.Schema.{conflicting, sanitize}
use claude_code_router.Providers.Schema.Passes.{opt_map}
use claude_code_router.Providers.Schema.Members.{
  sanitized_object, first-opaque, member-sanitize_other, IsOpaque, member,
}
use claude_code_router.Providers.Schema.Properties.{
  get-third_properties, member-sanitize_properties,
}

-- No property of the schema is called "type"; nor is one of the schemas of its properties, of
-- its items and of its additional properties.
pub data IsClean : Json → Type 0 where
  no_object : (v : Json) → ((fs : Fields) → v ≢ obj fs) → IsClean v
  clean_object :
      (fs : Fields)
      → ((gs : Fields) (k : Text)
          → last (codes "properties") fs ≡ some (obj gs)
          → conflicting k ≡ true
          → last k gs ≡ none)
      → ((gs : Fields) (k : Text) (v : Json)
          → last (codes "properties") fs ≡ some (obj gs)
          → last k gs ≡ some v
          → IsClean v)
      → ((v : Json) → last (codes "items") fs ≡ some v → IsClean v)
      → ((v : Json) → last (codes "additionalProperties") fs ≡ some v → IsClean v)
      → IsClean (obj fs)

last-field :
    (k j : Text) (v : Json) (fs : Fields) (w : Json)
    → last k (field j v fs) ≡ some w
    → (last k fs ≡ some w) ⊎ (v ≡ w)
unfolding last
last-field k j v fs w h = found (last k fs) (text_eq j k) h
  where
    found :
        (o : Option Json) (b : Bool)
        → or_else o (if b then some v else none) ≡ some w
        → (o ≡ some w) ⊎ (v ≡ w)
    found (some x) b e = inl e
    found none true e = inr (some_inj e)
    found none false e = absurd (none_some e)
      where
        none_some : none ≡ some w → ⊥
        none_some q = cc

-- What is known of the schemas below an object when it is sanitized.
abbrev MembersClean : Fields → Type 0
MembersClean fs = (k : Text) (v : Json) → last k fs ≡ some v → IsClean (sanitize v)

abbrev PropertiesClean : Fields → Type 0
PropertiesClean fs = (gs : Fields) → last (codes "properties") fs ≡ some (obj gs) → MembersClean gs

opt_map-eq_some :
    (o : Option Json) (v : Json)
    → opt_map sanitize o ≡ some v
    → (w : Json) × (o ≡ some w) × (sanitize w ≡ v)
opt_map-eq_some none v h = absurd (none_some h)
  where
    none_some : none ≡ some v → ⊥
    none_some q = cc
opt_map-eq_some (some w) v h = (w, refl, some_inj h)

module _ (fs : Fields) (q : Fields) (e : sanitize (obj fs) ≡ obj q) where
  nested-IsClean :
      (k : Text) (v : Json)
      → member k (sanitize (obj fs)) ≡ opt_map sanitize (last k fs)
      → MembersClean fs
      → last k q ≡ some v
      → IsClean v
  nested-IsClean k v m ms h =
      let (w, at, is) = opt_map-eq_some (last k fs) v (sym m ∙ ap (member k) e ∙ h) in
      subst IsClean is (ms k w at)

  -- The properties that the result has come from properties before.
  pruned :
      (gs : Fields)
      → last (codes "properties") q ≡ some (obj gs)
      → (hs : Fields) × (last (codes "properties") fs ≡ some (obj hs))
        × ((k : Text) → last k gs ≡ (if conflicting k then none else opt_map sanitize (last k hs)))
  pruned gs h = from (last (codes "properties") fs) refl
    where
      whole : member (codes "properties") (sanitize (obj fs)) ≡ some (obj gs)
      whole = ap (member (codes "properties")) e ∙ h

      opaque : (o : Option Json) → last (codes "properties") fs ≡ o → IsOpaque o → ⊥
      opaque o at u =
          subst IsOpaque (sym (first-opaque fs o at u) ∙ sym (get-third_properties fs) ∙ whole) u

      from :
          (o : Option Json)
          → last (codes "properties") fs ≡ o
          → (hs : Fields) × (last (codes "properties") fs ≡ some (obj hs))
            × ((k : Text)
                → last k gs ≡ (if conflicting k then none else opt_map sanitize (last k hs)))
      from none at = absurd (opaque none at tt)
      from (some null) at = absurd (opaque (some null) at tt)
      from (some (bool b)) at = absurd (opaque (some (bool b)) at tt)
      from (some (int n)) at = absurd (opaque (some (int n)) at tt)
      from (some (other_number t)) at = absurd (opaque (some (other_number t)) at tt)
      from (some (str t)) at = absurd (opaque (some (str t)) at tt)
      from (some (arr vs)) at = absurd (opaque (some (arr vs)) at tt)
      from (some (obj hs)) at =
          let (r, found, rows) = member-sanitize_properties fs hs at in
          (hs, at, λ k. ap (last k) (same_object (some_inj (sym whole ∙ found))) ∙ rows k)
        where
          same_object : {a b : Fields} → obj a ≡ obj b → a ≡ b
          same_object p = cc

  property-IsClean :
      PropertiesClean fs
      → (gs : Fields) (k : Text) (v : Json) → last (codes "properties") q ≡ some (obj gs)
      → last k gs ≡ some v
      → IsClean v
  property-IsClean ps gs k v h m =
      let (hs, at, rows) = pruned gs h in kept hs at (conflicting k) (sym (rows k) ∙ m)
    where
      kept :
          (hs : Fields)
          → last (codes "properties") fs ≡ some (obj hs)
          → (b : Bool) → (if b then none else opt_map sanitize (last k hs)) ≡ some v
          → IsClean v
      kept hs at true c = absurd (none_some c)
        where
          none_some : none ≡ some v → ⊥
          none_some p = cc
      kept hs at false c =
          let (w, here, is) = opt_map-eq_some (last k hs) v c in
          subst IsClean is (ps hs at k w here)

  object-IsClean : MembersClean fs → PropertiesClean fs → IsClean (obj q)
  unfolding text_eq
  object-IsClean ms ps =
      clean_object q (λ gs k h c. let (hs, at, rows) = pruned gs h in rows k ∙ rw c refl)
        (property-IsClean ps)
        (λ v h.
          nested-IsClean (codes "items") v (member-sanitize_other (codes "items") fs refl refl) ms
            h)
        (λ v h.
          nested-IsClean (codes "additionalProperties") v
            (member-sanitize_other (codes "additionalProperties") fs refl refl) ms h)

mutual
  unfolding sanitize last

  scalar-IsClean : (v : Json) → IsClean (sanitize v)
  scalar-IsClean null = no_object null (λ fs e. cc)
  scalar-IsClean (bool b) = no_object (bool b) (λ fs e. cc)
  scalar-IsClean (int n) = no_object (int n) (λ fs e. cc)
  scalar-IsClean (other_number t) = no_object (other_number t) (λ fs e. cc)
  scalar-IsClean (str t) = no_object (str t) (λ fs e. cc)
  scalar-IsClean (arr vs) = no_object (arr vs) (λ fs e. cc)
  scalar-IsClean (obj fs) =
      let (q, e) = sanitized_object fs in
      subst IsClean (sym e)
        (object-IsClean fs q e (members-AreClean fs) (properties-AreClean fs (codes "properties")))

  members-AreClean : (fs : Fields) (k : Text) (w : Json) → last k fs ≡ some w → IsClean (sanitize w)
  members-AreClean end k w h = cc
  members-AreClean (field j v fs) k w h = elim (last-field k j v fs w h) [
    | inl e ↦ members-AreClean fs k w e
    | inr e ↦ subst (λ x. IsClean (sanitize x)) e (scalar-IsClean v)
  ]

  properties-AreClean :
      (fs : Fields) (p : Text) (gs : Fields) → last p fs ≡ some (obj gs) → MembersClean gs
  properties-AreClean end p gs h = cc
  properties-AreClean (field j v fs) p gs h = elim (last-field p j v fs (obj gs) h) [
    | inl e ↦ properties-AreClean fs p gs e
    | inr e ↦ below-AreClean v gs e
  ]

  below-AreClean : (v : Json) (gs : Fields) → v ≡ obj gs → MembersClean gs
  below-AreClean (obj fs) gs e k w h = members-AreClean fs k w (ap (last k) (same_object e) ∙ h)
    where
      same_object : {a b : Fields} → obj a ≡ obj b → a ≡ b
      same_object p = cc
  below-AreClean _ gs e k w h = cc

-- In a sanitized schema no property is called "type". The same holds of the schemas of its
-- properties, of its items and of its additional properties, at every depth.
pub sanitize-IsClean : (v : Json) → IsClean (sanitize v)
sanitize-IsClean v = scalar-IsClean v
