-- ===== src/Db/ProviderKeys.antt =====
-- The key list that the router rotates through, under the statements that change it.
use claude_code_router.Common.{
  All-append, ℕ, suc, ◌≤◌, ◌<◌, ◌≡◌, refl, sym, ap, ◌∙◌, Text, text_eq, Bool, not, ◌==◌,
  if◌then◌else◌, List, [], ◌∷◌, ◌++◌, select, map, length, Bool-cases, inl, inr, arith, All,
}
use mathlib.Core.List.{map-append, append-nil}
use claude_code_router.Db.{
  ProviderKey, Database, add_provider_key, list_provider_keys, delete_provider_key,
  get_provider_key_values, count_provider_keys,
}
use claude_code_router.Db.Keys.{Rising, IsOrdered, Rising-select, order_by-Rising}

rows : Text → Database → List ProviderKey
rows p d = select (λ k. text_eq k.provider_id p) d.provider_keys

list_rows : (p : Text) (d : Database) → IsOrdered d → list_provider_keys p d ≡ rows p d
unfolding list_provider_keys rows
list_rows p d h = order_by-Rising 0 _ (Rising-select _ 0 d.provider_keys h.0)

Rising-append :
    (lo n : ℕ) (ks : List ProviderKey) (k : ProviderKey)
    → Rising lo ks
    → All (λ j. j.id ≤ n) ks
    → lo ≤ n
    → n < k.id
    → Rising lo (ks ++ k ∷ [])
Rising-append lo n [] k r a h g = (omega arith, tt)
Rising-append lo n (j ∷ ks) k r a h g = (r.0, Rising-append j.id n ks k r.1 a.1 a.0 g)

All-weaken : (n : ℕ) (ks : List ProviderKey) → All (λ j. j.id ≤ n) ks → All (λ j. j.id ≤ suc n) ks
All-weaken n [] a = tt
All-weaken n (k ∷ ks) a = (omega (arith, a.0), All-weaken n ks a.1)

pub add_provider_key-IsOrdered :
    (q v : Text) (now : ℕ) (d : Database) → IsOrdered d → IsOrdered (add_provider_key q v now d).1
unfolding add_provider_key
add_provider_key-IsOrdered q v now d h = (
  Rising-append 0 d.last_provider_key_id d.provider_keys _ h.0 h.1 (omega arith) (omega arith),
  All-append _ d.provider_keys _ (All-weaken _ d.provider_keys h.1) (omega arith, tt),
)

select-append :
    (p : ProviderKey → Bool) (ks js : List ProviderKey)
    → select p (ks ++ js) ≡ select p ks ++ select p js
select-append p [] js = refl
select-append p (k ∷ ks) js = elim (Bool-cases (p k)) [
  | inl y ↦ rw y (ap (λ t. k ∷ t) (select-append p ks js))
  | inr n ↦ rw n (select-append p ks js)
]

All-select :
    (p : ProviderKey → Bool) (n : ℕ) (ks : List ProviderKey)
    → All (λ j. j.id ≤ n) ks
    → All (λ j. j.id ≤ n) (select p ks)
All-select p n [] a = tt
All-select p n (k ∷ ks) a = elim (Bool-cases (p k)) [
  | inl y ↦ rw y (a.0, All-select p n ks a.1)
  | inr y ↦ rw y (All-select p n ks a.1)
]

pub delete_provider_key-IsOrdered :
    (id : ℕ) (d : Database) → IsOrdered d → IsOrdered (delete_provider_key id d)
unfolding delete_provider_key
delete_provider_key-IsOrdered id d h =
    (Rising-select _ 0 d.provider_keys h.0, All-select _ _ d.provider_keys h.1)

select_comm :
    (p q : ProviderKey → Bool) (ks : List ProviderKey)
    → select p (select q ks) ≡ select q (select p ks)
select_comm p q [] = refl
select_comm p q (k ∷ ks) = elim (Bool-cases (p k)) [
  | inl y ↦ elim (Bool-cases (q k)) [
    | inl z ↦ rw (y, z) (rw y (ap (λ t. k ∷ t) (select_comm p q ks)))
    | inr z ↦ rw (y, z) (select_comm p q ks)
  ]
  | inr y ↦ elim (Bool-cases (q k)) [
    | inl z ↦ rw (y, z) (rw y (select_comm p q ks))
    | inr z ↦ rw (y, z) (select_comm p q ks)
  ]
]

added_rows :
    (q v p : Text) (now : ℕ) (d : Database)
    → map (λ k. k.key_value) (rows p (add_provider_key q v now d).1) ≡ (
        if text_eq q p
        then map (λ k. k.key_value) (rows p d) ++ v ∷ []
        else map (λ k. k.key_value) (rows p d))
unfolding rows add_provider_key
added_rows q v p now d =
    ap (map (λ k. k.key_value)) (select-append _ d.provider_keys _)
    ∙ elim (Bool-cases (text_eq q p)) [
      | inl y ↦ rw y (map-append _ (select (λ k. text_eq k.provider_id p) d.provider_keys) _)
      | inr n ↦ rw n (ap (map (λ k. k.key_value)) (append-nil _))
    ]

-- A key that is added comes last in its provider's rotation, and no other provider's list changes.
pub values-add_provider_key :
    (q v p : Text) (now : ℕ) (d : Database)
    → IsOrdered d
    → get_provider_key_values p (add_provider_key q v now d).1
      ≡ (if text_eq q p then get_provider_key_values p d ++ v ∷ [] else get_provider_key_values p d)
unfolding get_provider_key_values
values-add_provider_key q v p now d h =
    rw
      (
        list_rows p d h,
        list_rows p (add_provider_key q v now d).1 (add_provider_key-IsOrdered q v now d h),
      )
      (added_rows q v p now d)

-- Deleting a row takes that row, and no other, out of the provider's list.
pub list-delete_provider_key :
    (id : ℕ) (p : Text) (d : Database)
    → IsOrdered d
    → list_provider_keys p (delete_provider_key id d)
      ≡ select (λ k. not (k.id == id)) (list_provider_keys p d)
unfolding rows delete_provider_key
list-delete_provider_key id p d h =
    list_rows p _ (delete_provider_key-IsOrdered id d h)
    ∙ select_comm _ _ d.provider_keys
    ∙ ap (select (λ k. not (k.id == id))) (sym (list_rows p d h))

length-map : (ks : List ProviderKey) → length (map (λ k. k.key_value) ks) ≡ length ks
length-map [] = refl
length-map (k ∷ ks) = ap suc (length-map ks)

-- The count shown beside a provider is the length of the list that the router rotates through.
count-values :
    (p : Text) (d : Database)
    → IsOrdered d
    → count_provider_keys p d ≡ length (get_provider_key_values p d)
unfolding count_provider_keys get_provider_key_values rows
count-values p d h =
    sym (length-map (rows p d))
    ∙ ap (λ t. length (map (λ k. k.key_value) t)) (sym (list_rows p d h))
