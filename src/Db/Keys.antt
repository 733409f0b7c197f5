-- ===== src/Db/Keys.antt =====
-- The life of client keys and of provider keys.
use claude_code_router.Common.{
  ◌∙◌, some_inj, ap, sym, Option-cases, inr, refl, inl, leb, select, Bool, All, Bool-cases, ◌<◌,
  false, ◌≤◌, ◌++◌, ℕ, ◌≡◌, Text, text_eq, text_eq_iff, true, if◌then◌else◌, List, [], ◌∷◌, Option,
  none, some, map, arith,
}
use claude_code_router.Db.{
  update_last_used, revoke_key, Database, get_key, ProviderKey, create_key, order_by, insert_by,
  ClientKey, find_key,
}

abbrev pub revoked_row : ClientKey → ClientKey
revoked_row k = record k { revoked = true }

abbrev pub on_found : (ClientKey → ClientKey) → Option ClientKey → Option ClientKey
on_found f none = none
on_found f (some k) = some (f k)

find_key-map :
    (id j : Text) (f : ClientKey → ClientKey) (ks : List ClientKey)
    → ((k : ClientKey) → (f k).id ≡ k.id)
    → find_key j (map (λ k. if text_eq k.id id then f k else k) ks)
      ≡ (if text_eq id j then on_found f (find_key j ks) else find_key j ks)
unfolding find_key
find_key-map id j f [] same = ground arith
find_key-map id j f (k ∷ ks) same = ground (
  arith,
  same k,
  text_eq_iff k.id id,
  text_eq_iff id j,
  text_eq_iff k.id j,
  find_key-map id j f ks same,
)

-- Revoking a key marks the row of that key, where there is one, and leaves what is read for every
-- other key.
pub get_key-revoke_key :
    (id j : Text) (d : Database)
    → get_key j (revoke_key id d)
      ≡ (if text_eq id j then on_found revoked_row (get_key j d) else get_key j d)
unfolding get_key revoke_key
get_key-revoke_key id j d = find_key-map id j revoked_row d.client_keys (λ k. refl)

pub get_key-update_last_used :
    (id j : Text) (now : ℕ) (d : Database)
    → get_key j (update_last_used id now d) ≡ (
        if text_eq id j
        then on_found (λ k. record k { last_used = some now }) (get_key j d)
        else get_key j d)
unfolding get_key update_last_used
get_key-update_last_used id j now d =
    find_key-map id j (λ k. record k { last_used = some now }) d.client_keys (λ k. refl)

-- The row that CreateKey inserts.
abbrev pub new_row : Text → Text → ℕ → ClientKey
new_row id name now = record {
  id = id;
  name = name;
  created_at = now;
  last_used = none;
  revoked = false;
}

abbrev or_else : Option ClientKey → Option ClientKey → Option ClientKey
or_else none b = b
or_else (some k) b = some k

find_key-append :
    (j : Text) (ks : List ClientKey) (k : ClientKey)
    → find_key j (ks ++ k ∷ []) ≡ or_else (find_key j ks) (if text_eq k.id j then some k else none)
unfolding find_key
find_key-append j [] k = refl
find_key-append j (x ∷ ks) k = ground (arith, text_eq_iff x.id j, find_key-append j ks k)

-- Creating a key that is not there makes it readable, active, and changes what is read for no other
-- key.
pub get_key-create_key :
    (id name j : Text) (now : ℕ) (d e : Database)
    → create_key id name now d ≡ some e
    → get_key j e ≡ (if text_eq id j then some (new_row id name now) else get_key j d)
unfolding create_key
get_key-create_key id name j now d e h = elim (Option-cases (find_key id d.client_keys)) [
  | inr (k, q) ↦ absurd (none-ne-some (rw (q, create_key) at h))
  | inl q ↦
      sym (ap (get_key j) (some_inj (rw (q, create_key) at h)))
      ∙ find_key-append j d.client_keys (new_row id name now)
      ∙ first q
]
  where
    none-ne-some : none ≡ some e → ⊥
    none-ne-some p = cc

    first :
        find_key id d.client_keys ≡ none
        → or_else
            (find_key j d.client_keys)
            (if text_eq id j then some (new_row id name now) else none)
          ≡ (if text_eq id j then some (new_row id name now) else find_key j d.client_keys)
    first q = elim (Bool-cases (text_eq id j)) [
      | inl p ↦ rw (p, ← (text_eq_iff id j).0 p, q)
      | inr p ↦ rw p (kept (find_key j d.client_keys))
    ]
      where
        kept : (o : Option ClientKey) → or_else o none ≡ o
        kept none = refl
        kept (some k) = refl

-- The identifiers rise along the table from `lo` on.
abbrev pub Rising : ℕ → List ProviderKey → Type 0
Rising lo [] = Unit
Rising lo (k ∷ ks) = (lo < k.id) × Rising k.id ks

-- AUTOINCREMENT has given out the identifiers of the table in the order of its rows.
abbrev pub IsOrdered : Database → Type 0
IsOrdered d = Rising 0 d.provider_keys × All (λ k. k.id ≤ d.last_provider_key_id) d.provider_keys

pub Rising-mono : (lo hi : ℕ) (ks : List ProviderKey) → lo ≤ hi → Rising hi ks → Rising lo ks
Rising-mono lo hi [] h r = tt
Rising-mono lo hi (k ∷ ks) h r = (omega (arith, r.0), r.1)

pub Rising-select :
    (p : ProviderKey → Bool) (lo : ℕ) (ks : List ProviderKey)
    → Rising lo ks
    → Rising lo (select p ks)
Rising-select p lo [] r = tt
Rising-select p lo (k ∷ ks) r = elim (Bool-cases (p k)) [
  | inl y ↦ rw y (r.0, Rising-select p k.id ks r.1)
  | inr n ↦ rw n (Rising-mono lo k.id _ (omega (arith, r.0)) (Rising-select p k.id ks r.1))
]

abbrev pub by_id : ProviderKey → ProviderKey → Bool
by_id a b = leb a.id b.id

insert_first :
    (k : ProviderKey) (ks : List ProviderKey) → Rising k.id ks → insert_by by_id k ks ≡ k ∷ ks
unfolding insert_by
insert_first k [] r = refl
insert_first k (j ∷ ks) r = ground (arith, r.0)

pub order_by-Rising : (lo : ℕ) (ks : List ProviderKey) → Rising lo ks → order_by by_id ks ≡ ks
unfolding order_by
order_by-Rising lo [] r = refl
order_by-Rising lo (k ∷ ks) r = rw (order_by-Rising k.id ks r.1) (insert_first k ks r.1)
