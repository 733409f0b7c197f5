-- ===== src/Json/Decode.antt =====
-- Decoding the fields of a struct.
use claude_code_router.Common.{
  ℕ, ◌+◌, Text, text_eq, Bool, ◌&&◌, ◌==◌, leb, if◌then◌else◌, List, [], ◌∷◌, ◌++◌, Option, none,
  some,
}
use claude_code_router.Json.{arr, items, ℤ, pos, Json, null, int, str, obj, fields}

lower : ℕ → ℕ
lower b = if leb b'A' b && leb b b'Z' then b + 32 else b

-- The case folding of keys: ASCII letters, and the two other code points that fold to one.
fold_name : Text → Text
fold_name [] = []
fold_name (a ∷ []) = lower a ∷ []
fold_name (a ∷ b ∷ []) = if a == 0xC5 && b == 0xBF then b's' ∷ [] else lower a ∷ lower b ∷ []
fold_name (a ∷ b ∷ c ∷ s) =
    let kelvin = b'k' ∷ fold_name s in
    let long_s = b's' ∷ fold_name (c ∷ s) in
    let plain = lower a ∷ fold_name (b ∷ c ∷ s) in
    if a == 0xE2 && b == 0x84 && c == 0xAA
    then kelvin
    else if a == 0xC5 && b == 0xBF
    then long_s
    else plain

unfoldable pub names : Text → Text → Bool
unfolding fold_name lower text_eq
names k name = text_eq (fold_name k) (fold_name name)

module _ {ℓ} {A : Type ℓ} where
  -- A pass over the object's keys, in order; `read` decodes a value over the field's present value.
  unfoldable pub member : (A → Json → Option A) → A → Text → List (Text × Json) → Option A
  member read a name [] = some a
  member read a name ((k, v) ∷ fs) =
      let next = if names k name then read a v else some a in
      elim next [ none ↦ none | some b ↦ member read b name fs ]

abbrev pub read_str : Text → Json → Option Text
read_str s null = some s
read_str s (str t) = some t
read_str s _ = none

abbrev read_int : ℤ → Json → Option ℤ
read_int n null = some n
read_int n (int m) = some m
read_int n _ = none

-- A nested struct: a later object of the same name is decoded over the earlier one.
abbrev read_obj : List (Text × Json) → Json → Option (List (Text × Json))
read_obj fs null = some fs
read_obj fs (obj gs) = some (fs ++ fields gs)
read_obj fs _ = none

-- A pointer to a string: null resets it.
abbrev read_str_ptr : Option Text → Json → Option (Option Text)
read_str_ptr p null = some none
read_str_ptr p (str t) = some (some t)
read_str_ptr p _ = none

unfoldable pub str_field : Text → List (Text × Json) → Option Text
unfolding member names
str_field name fs = member read_str [] name fs

unfoldable pub int_field : Text → List (Text × Json) → Option ℤ
unfolding member names
int_field name fs = member read_int (pos 0) name fs

unfoldable pub obj_field : Text → List (Text × Json) → Option (List (Text × Json))
unfolding member names
obj_field name fs = member read_obj [] name fs

pub str_ptr_field : Text → List (Text × Json) → Option (Option Text)
unfolding member names
str_ptr_field name fs = member read_str_ptr none name fs

-- The object that a document is; null decodes into a struct as no fields.
abbrev pub top : Json → Option (List (Text × Json))
top v = read_obj [] v

-- A chain of decodings, each of which may fail.
infixl 5 ◌>>=◌
abbrev pub ◌>>=◌ {ℓ κ} : {A : Type ℓ} {B : Type κ} → Option A → (A → Option B) → Option B
none >>= f = none
some a >>= f = f a

-- A slice: null resets it, and any other array replaces what it held.
unfoldable pub each {ℓ} : {A : Type ℓ} → (Json → Option A) → List Json → Option (List A)
each read [] = some []
each read (v ∷ vs) = do a ← read v; as' ← each read vs; some (a ∷ as')

abbrev pub read_list {ℓ} : {A : Type ℓ} → (Json → Option A) → List A → Json → Option (List A)
read_list read old null = some []
read_list read old (arr vs) = each read (items vs)
read_list read old _ = none
