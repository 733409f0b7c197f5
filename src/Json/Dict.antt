-- ===== src/Json/Dict.antt =====
-- Go maps with keys of type string as encoding/json reads and prints them: reading an object into a map
-- keeps the last value of each key, and printing a map sorts its keys. Maps are kept in that order.
use claude_code_router.Common.{
  subst, ◌≡◌, refl, ◌∙◌, Text, text_eq, text_eq_iff, Bool, true, false, ltb, ◌==◌, if◌then◌else◌,
  List, [], ◌∷◌, Option, none, some, Bool-cases, inl, inr, arith,
}
use claude_code_router.Json.{Json, Fields, end, field}

abbrev pub Dict : Type 0
Dict = List (Text × Json)

-- The order of Go strings.
pub text_lt : Text → Text → Bool
text_lt s [] = false
text_lt [] (b ∷ t) = true
text_lt (a ∷ s) (b ∷ t) = let rest = text_lt s t in if a == b then rest else ltb a b

unfoldable pub get : Text → Dict → Option Json
get k [] = none
get k ((j, w) ∷ d) = if text_eq j k then some w else get k d

pub put : Text → Json → Dict → Dict
unfolding text_lt
put k v [] = (k, v) ∷ []
put k v ((j, w) ∷ d) =
    let later = (j, w) ∷ put k v d in
    if text_eq j k then (k, v) ∷ d else if text_lt k j then (k, v) ∷ (j, w) ∷ d else later

unfoldable pub remove : (Text → Bool) → Dict → Dict
remove p [] = []
remove p ((k, v) ∷ d) = let rest = remove p d in if p k then rest else (k, v) ∷ rest

pub put_all : Fields → Dict → Dict
unfolding put
put_all end d = d
put_all (field k v fs) d = put_all fs (put k v d)

-- json.Unmarshal of an object into a new map.
unfoldable pub dict : Fields → Dict
unfolding put_all
dict fs = put_all fs []

-- json.Marshal of a map.
unfoldable pub members : Dict → Fields
members [] = end
members ((k, v) ∷ d) = field k v (members d)

abbrev pub or_else : Option Json → Option Json → Option Json
or_else none o = o
or_else (some w) o = some w

-- The last value of a key in an object.
unfoldable pub last : Text → Fields → Option Json
last k end = none
last k (field j v fs) = or_else (last k fs) (if text_eq j k then some v else none)

pub get-put :
    (i k : Text) (v : Json) (d : Dict)
    → get i (put k v d) ≡ (if text_eq k i then some v else get i d)
unfolding get put
get-put i k v [] = refl
get-put i k v ((j, w) ∷ d) =
    ground (arith, text_eq_iff k i, text_eq_iff j k, text_eq_iff j i, get-put i k v d)

pub get-remove :
    (p : Text → Bool) (i : Text) (d : Dict) → get i (remove p d) ≡ (if p i then none else get i d)
unfolding get remove
get-remove p i [] = ground arith
get-remove p i ((j, w) ∷ d) = ground (arith, text_eq_iff j i, get-remove p i d)

get-put_all :
    (i : Text) (fs : Fields) (d : Dict) → get i (put_all fs d) ≡ or_else (last i fs) (get i d)
unfolding put_all last
get-put_all i end d = refl
get-put_all i (field k v fs) d =
    get-put_all i fs (put k v d) ∙ rw (get-put i k v d) (found (last i fs) (text_eq k i))
  where
    found :
        (o : Option Json) (b : Bool)
        → or_else o (if b then some v else get i d)
          ≡ or_else (or_else o (if b then some v else none)) (get i d)
    found none true = refl
    found none false = refl
    found (some w) b = refl

or_else-none : (o : Option Json) → or_else o none ≡ o
or_else-none none = refl
or_else-none (some w) = refl

-- Reading a map from an object keeps the last value of each key.
pub get-dict : (i : Text) (fs : Fields) → get i (dict fs) ≡ last i fs
unfolding dict get
get-dict i fs = get-put_all i fs [] ∙ or_else-none (last i fs)

text_lt_irrefl : (s : Text) → text_lt s s ≡ false
unfolding text_lt
text_lt_irrefl [] = refl
text_lt_irrefl (a ∷ s) = ground (arith, text_lt_irrefl s)

text_lt_trans : (s t u : Text) → text_lt s t ≡ true → text_lt t u ≡ true → text_lt s u ≡ true
unfolding text_lt
text_lt_trans s [] u h k = cc
text_lt_trans s (b ∷ t) [] h k = cc
text_lt_trans [] (b ∷ t) (c ∷ u) h k = refl
text_lt_trans (a ∷ s) (b ∷ t) (c ∷ u) h k = ground (arith, text_lt_trans s t u)

text_lt_total : (s t : Text) → text_eq s t ≡ false → text_lt t s ≡ false → text_lt s t ≡ true
unfolding text_lt text_eq
text_lt_total [] [] h k = cc
text_lt_total [] (b ∷ t) h k = refl
text_lt_total (a ∷ s) [] h k = cc
text_lt_total (a ∷ s) (b ∷ t) h k = ground (arith, text_lt_total s t)

-- Every key is behind a given one.
abbrev Behind : Text → Dict → Type 0
Behind k [] = Unit
Behind k ((j, w) ∷ d) = text_lt k j ≡ true

abbrev pub IsMap : Dict → Type 0
IsMap [] = Unit
IsMap ((k, v) ∷ d) = Behind k d × IsMap d

Behind-trans : (k j : Text) (d : Dict) → text_lt k j ≡ true → Behind j d → Behind k d
Behind-trans k j [] h b = tt
Behind-trans k j ((i, w) ∷ d) h b = text_lt_trans k j i h b

Behind-get : (k : Text) (d : Dict) → Behind k d → IsMap d → get k d ≡ none
unfolding get
Behind-get k [] b h = refl
Behind-get k ((j, w) ∷ d) b h =
    ground (arith, text_eq_iff j k, text_lt_irrefl k, Behind-get k d (Behind-trans k j d b h.0) h.1)

put-Behind :
    (i k : Text) (v : Json) (d : Dict) → text_lt i k ≡ true → Behind i d → Behind i (put k v d)
unfolding put
put-Behind i k v [] h b = h
put-Behind i k v ((j, w) ∷ d) h b = elim (Bool-cases (text_eq j k)) [
  | inl y ↦ rw y h
  | inr n ↦ elim (Bool-cases (text_lt k j)) [ inl y ↦ rw (n, y) h | inr m ↦ rw (n, m) b ]
]

pub put-IsMap : (k : Text) (v : Json) (d : Dict) → IsMap d → IsMap (put k v d)
unfolding put
put-IsMap k v [] h = (tt, tt)
put-IsMap k v ((j, w) ∷ d) h = elim (Bool-cases (text_eq j k)) [
  | inl y ↦ rw y (subst (λ i. Behind i d) ((text_eq_iff j k).0 y) h.0, h.1)
  | inr n ↦ elim (Bool-cases (text_lt k j)) [
    | inl y ↦ rw (n, y) (y, (h.0, h.1))
    | inr m ↦ rw (n, m) (put-Behind j k v d (text_lt_total j k n m) h.0, put-IsMap k v d h.1)
  ]
]

put_all-IsMap : (fs : Fields) (d : Dict) → IsMap d → IsMap (put_all fs d)
unfolding put_all
put_all-IsMap end d h = h
put_all-IsMap (field k v fs) d h = put_all-IsMap fs (put k v d) (put-IsMap k v d h)

pub dict-IsMap : (fs : Fields) → IsMap (dict fs)
unfolding dict
dict-IsMap fs = put_all-IsMap fs [] tt

remove-Behind :
    (p : Text → Bool) (i : Text) (d : Dict) → Behind i d → IsMap d → Behind i (remove p d)
unfolding remove
remove-Behind p i [] b h = tt
remove-Behind p i ((k, v) ∷ d) b h = elim (Bool-cases (p k)) [
  | inl y ↦ rw y (remove-Behind p i d (Behind-trans i k d b h.0) h.1)
  | inr n ↦ rw n b
]

pub remove-IsMap : (p : Text → Bool) (d : Dict) → IsMap d → IsMap (remove p d)
unfolding remove
remove-IsMap p [] h = tt
remove-IsMap p ((k, v) ∷ d) h = elim (Bool-cases (p k)) [
  | inl y ↦ rw y (remove-IsMap p d h.1)
  | inr n ↦ rw n (remove-Behind p k d h.0 h.1, remove-IsMap p d h.1)
]

-- Printing a map loses nothing.
pub last-members : (k : Text) (d : Dict) → IsMap d → last k (members d) ≡ get k d
unfolding last members get
last-members k [] h = refl
last-members k ((j, w) ∷ d) h = elim (Bool-cases (text_eq j k)) [
  | inl y ↦ rw (
    last-members k d h.1 ∙ Behind-get k d (subst (λ i. Behind i d) ((text_eq_iff j k).0 y) h.0) h.1,
    y,
  )
  | inr n ↦ rw (last-members k d h.1, n) (or_else-none (get k d))
]
