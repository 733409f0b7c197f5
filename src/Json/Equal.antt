-- ===== src/Json/Equal.antt =====
-- The comparison of two raw documents.
use claude_code_router.Common.{
  ◌≡◌, refl, Text, text_eq, text_eq_iff, Bool, true, false, ◌&&◌, arith,
}
use mathlib.Core.Path.{ap₂}
use claude_code_router.Json.{
  Json, Items, Fields, same_int, null, bool, int, other_number, str, arr, obj, nil, cons, end,
  field,
}

abbrev same_bool : Bool → Bool → Bool
same_bool true b = b
same_bool false true = false
same_bool false false = true

unfoldable mutual
  unfolding text_eq

  pub json_eq : Json → Json → Bool
  json_eq null null = true
  json_eq (bool a) (bool b) = same_bool a b
  json_eq (int m) (int n) = same_int m n
  json_eq (other_number s) (other_number t) = text_eq s t
  json_eq (str s) (str t) = text_eq s t
  json_eq (arr xs) (arr ys) = items_eq xs ys
  json_eq (obj fs) (obj gs) = fields_eq fs gs
  json_eq _ _ = false

  pub items_eq : Items → Items → Bool
  items_eq nil nil = true
  items_eq (cons v vs) (cons w ws) = json_eq v w && items_eq vs ws
  items_eq _ _ = false

  pub fields_eq : Fields → Fields → Bool
  fields_eq end end = true
  fields_eq (field j v fs) (field k w gs) = text_eq j k && json_eq v w && fields_eq fs gs
  fields_eq _ _ = false

both : (a b : Bool) → (a && b) ≡ true → (a ≡ true) × (b ≡ true)
both true b h = (refl, h)
both false b h = cc

same_field :
    {j k : Text} {v w : Json} {fs gs : Fields}
    → j ≡ k
    → v ≡ w
    → fs ≡ gs
    → field j v fs ≡ field k w gs
same_field p q r = cc

mutual
  unfolding json_eq

  pub json_eq_sound : (v w : Json) → json_eq v w ≡ true → v ≡ w
  json_eq_sound null w h = ground arith
  json_eq_sound (bool a) w h = ground arith
  json_eq_sound (int m) w h = ground arith
  json_eq_sound (other_number s) (other_number t) h = ground (arith, text_eq_iff s t)
  json_eq_sound (other_number s) w h = ground arith
  json_eq_sound (str s) (str t) h = ground (arith, text_eq_iff s t)
  json_eq_sound (str s) w h = ground arith
  json_eq_sound (arr xs) (arr ys) h = ground (arith, items_eq_sound xs ys)
  json_eq_sound (arr xs) w h = ground arith
  json_eq_sound (obj fs) (obj gs) h = ground (arith, fields_eq_sound fs gs)
  json_eq_sound (obj fs) w h = ground arith

  items_eq_sound : (xs ys : Items) → items_eq xs ys ≡ true → xs ≡ ys
  items_eq_sound nil ys h = ground arith
  items_eq_sound (cons v vs) nil h = ground arith
  items_eq_sound (cons v vs) (cons w ws) h =
      let (p, q) = both (json_eq v w) (items_eq vs ws) h in
      ap₂ cons (json_eq_sound v w p) (items_eq_sound vs ws q)

  fields_eq_sound : (fs gs : Fields) → fields_eq fs gs ≡ true → fs ≡ gs
  fields_eq_sound end gs h = ground arith
  fields_eq_sound (field j v fs) end h = ground arith
  fields_eq_sound (field j v fs) (field k w gs) h =
      let (n, r) = both (text_eq j k && json_eq v w) (fields_eq fs gs) h in
      let (p, q) = both (text_eq j k) (json_eq v w) n in
      same_field ((text_eq_iff j k).0 p) (json_eq_sound v w q) (fields_eq_sound fs gs r)

mutual
  unfolding json_eq

  pub json_eq_refl : (v : Json) → json_eq v v ≡ true
  json_eq_refl null = refl
  json_eq_refl (bool a) = ground arith
  json_eq_refl (int m) = ground arith
  json_eq_refl (other_number s) = ground (arith, text_eq_iff s s)
  json_eq_refl (str s) = ground (arith, text_eq_iff s s)
  json_eq_refl (arr xs) = items_eq_refl xs
  json_eq_refl (obj fs) = fields_eq_refl fs

  items_eq_refl : (xs : Items) → items_eq xs xs ≡ true
  items_eq_refl nil = refl
  items_eq_refl (cons v vs) = ground (arith, json_eq_refl v, items_eq_refl vs)

  fields_eq_refl : (fs : Fields) → fields_eq fs fs ≡ true
  fields_eq_refl end = refl
  fields_eq_refl (field j v fs) = ground (arith, text_eq_iff j j, json_eq_refl v, fields_eq_refl fs)
