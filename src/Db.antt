-- ===== src/Db.antt =====
-- db/usage.go and db/db.go: the three tables and the statements on them. A table is the list of its
-- rows in the order of insertion, and a statement is what SQL says that it does; `like` is the
-- engine's LIKE on %filter%. Errors of the driver are left out, but for the primary key of CreateKey.
-- The readings of time.Now are arguments.
pub mod Order
pub mod Keys
pub mod ProviderKeys
pub mod Summary
pub mod Usage
use claude_code_router.Common.{
  ℕ, zero, suc, ◌+◌, ◌≡◌, Text, text_eq, Bool, true, false, not, ◌&&◌, ◌||◌, ◌==◌, leb, ltb,
  if◌then◌else◌, List, [], ◌∷◌, ◌++◌, Option, none, some, select, map, length, take,
}
use claude_code_router.Json.{ℤ, pos, negsuc}

pub record ClientKey : Type 0 where
  pub id : Text
  pub name : Text
  pub created_at : ℕ
  pub last_used : Option ℕ
  pub revoked : Bool

pub record ProviderKey : Type 0 where
  pub id : ℕ
  pub provider_id : Text
  pub key_value : Text
  pub created_at : ℕ

pub record UsageRecord : Type 0 where
  pub id : ℕ
  pub ts : ℕ
  pub client_key : Text
  pub requested_model : Text
  pub routed_model : Text
  pub provider : Text
  pub input_tokens : ℤ
  pub output_tokens : ℤ
  pub latency_ms : ℕ
  pub status : ℕ
  pub fallback_count : ℕ

-- The last identifiers that AUTOINCREMENT gave out stand beside the tables.
pub record Database : Type 0 where
  pub client_keys : List ClientKey
  pub usage : List UsageRecord
  pub provider_keys : List ProviderKey
  pub last_usage_id : ℕ
  pub last_provider_key_id : ℕ

unfoldable pub empty_database : Database
empty_database = record {
  client_keys = [];
  usage = [];
  provider_keys = [];
  last_usage_id = 0;
  last_provider_key_id = 0;
}

-- ORDER BY: a stable sort by `first`, which holds of two rows whose order is right.
insert_by {ℓ} : {A : Type ℓ} → (A → A → Bool) → A → List A → List A
insert_by first a [] = a ∷ []
insert_by first a (b ∷ bs) = if first a b then a ∷ b ∷ bs else b ∷ insert_by first a bs

unfoldable pub order_by {ℓ} : {A : Type ℓ} → (A → A → Bool) → List A → List A
unfolding insert_by
order_by first [] = []
order_by first (a ∷ as') = insert_by first a (order_by first as')

find_key : Text → List ClientKey → Option ClientKey
find_key id [] = none
find_key id (k ∷ ks) = if text_eq k.id id then some k else find_key id ks

pub get_key : Text → Database → Option ClientKey
unfolding find_key
get_key id d = find_key id d.client_keys

-- `none` is the violation of the primary key.
unfoldable pub create_key : (id name : Text) (now : ℕ) → Database → Option Database
unfolding get_key
create_key id name now d = elim (get_key id d) [
  | none ↦ some (record d {
    client_keys =
        d.client_keys
        ++ record { id = id; name = name; created_at = now; last_used = none; revoked = false }
          ∷ [];
  })
  | some k ↦ none
]

pub list_keys : Database → List ClientKey
list_keys d = order_by (λ a b. leb b.created_at a.created_at) d.client_keys

pub revoke_key : Text → Database → Database
revoke_key id d = record d {
  client_keys = map (λ k. if text_eq k.id id then record k { revoked = true } else k) d.client_keys;
}

pub update_last_used : Text → (now : ℕ) → Database → Database
update_last_used id now d = record d {
  client_keys =
      map (λ k. if text_eq k.id id then record k { last_used = some now } else k) d.client_keys;
}

pub add_provider_key : (provider_id key_value : Text) (now : ℕ) → Database → ℕ × Database
add_provider_key provider_id key_value now d = (
  suc d.last_provider_key_id,
  record d {
    provider_keys =
        d.provider_keys
        ++ record {
          id = suc d.last_provider_key_id;
          provider_id = provider_id;
          key_value = key_value;
          created_at = now;
        }
          ∷ [];
    last_provider_key_id = suc d.last_provider_key_id;
  },
)

pub list_provider_keys : Text → Database → List ProviderKey
list_provider_keys provider_id d =
    order_by (λ a b. leb a.id b.id)
      (select (λ k. text_eq k.provider_id provider_id) d.provider_keys)

pub delete_provider_key : ℕ → Database → Database
delete_provider_key id d = record d {
  provider_keys = select (λ k. not (k.id == id)) d.provider_keys;
}

pub get_provider_key_values : Text → Database → List Text
unfolding list_provider_keys
get_provider_key_values provider_id d = map (λ k. k.key_value) (list_provider_keys provider_id d)

pub count_provider_keys : Text → Database → ℕ
count_provider_keys provider_id d =
    length (select (λ k. text_eq k.provider_id provider_id) d.provider_keys)

unfoldable pub write_usage : UsageRecord → Database → Database
write_usage r d = record d {
  usage = d.usage ++ record r { id = suc d.last_usage_id } ∷ [];
  last_usage_id = suc d.last_usage_id;
}

-- The clauses of QueryUsage; an empty filter and a bound that is not positive add none.
key_clause : Text → UsageRecord → Bool
key_clause [] r = true
key_clause (b ∷ k) r = text_eq r.client_key (b ∷ k)

model_clause : (Text → Text → Bool) → Text → UsageRecord → Bool
model_clause like [] r = true
model_clause like (b ∷ m) r = like (b ∷ m) r.requested_model || like (b ∷ m) r.routed_model

from_clause : ℤ → UsageRecord → Bool
from_clause (pos zero) r = true
from_clause (pos (suc n)) r = leb (suc n) r.ts
from_clause (negsuc n) r = true

to_clause : ℤ → UsageRecord → Bool
to_clause (pos zero) r = true
to_clause (pos (suc n)) r = leb r.ts (suc n)
to_clause (negsuc n) r = true

limited : ℤ → List UsageRecord → List UsageRecord
limited (pos zero) rs = rs
limited (pos (suc n)) rs = take (suc n) rs
limited (negsuc n) rs = rs

pub matches : (Text → Text → Bool) → (key model : Text) (from to : ℤ) → UsageRecord → Bool
unfolding key_clause model_clause from_clause to_clause
matches like key model from to r =
    key_clause key r && model_clause like model r && from_clause from r && to_clause to r

pub query_usage :
    (Text → Text → Bool) → (key model : Text) (from to limit : ℤ) → Database → List UsageRecord
unfolding matches limited
query_usage like key model from to limit d =
    limited limit
      (order_by (λ a b. leb b.ts a.ts) (select (matches like key model from to) d.usage))
