-- ===== src/Admin/Api.antt =====
-- admin/api.go: the handlers that change the keys or the configuration. `decode` reads the first
-- document of a body; the identifier that mintKeyID draws is an argument, as are the readings of the
-- clock and the fault of a write to the configuration's file.
pub mod Rejected
pub mod Locked
use claude_code_router.Common.{
  ℕ, Text, codes, Bool, true, false, if◌then◌else◌, List, [], ◌∷◌, Option, none, some,
}
use claude_code_router.Json.{ℤ, pos, negsuc, Json}
use claude_code_router.Json.Decode.{member, each, read_list, str_field, top, ◌>>=◌}
use claude_code_router.Config.Types.{ModelProvider, ModelConfig, ProviderConfig, Config}
use claude_code_router.Config.Manager.{
  Manager, Error, Fault, upsert_model, delete_model, upsert_provider, delete_provider,
}
use claude_code_router.Db.{Database, create_key, revoke_key, add_provider_key, delete_provider_key}

pub record State : Type 0 where
  pub manager : Manager
  pub database : Database

-- The requests, with the parts of the URL and the body that a handler reads; `none` as the new id is
-- a failure of the random source, and as a row id a text that does not scan.
pub data Action : Type 0 where
  mint_key : (new_id : Option Text) (body : Text) → Action
  revoke : (id : Text) → Action
  put_model : (body : Text) → Action
  remove_model : (alias : Text) → Action
  put_provider : (body : Text) → Action
  remove_provider : (id : Text) → Action
  add_key : (provider_id body : Text) → Action
  remove_key : (row : Option ℤ) → Action

model_provider_of : Json → Option ModelProvider
model_provider_of v = do
  fs ← top v
  p ← str_field (codes "provider") fs
  m ← str_field (codes "model_id") fs
  some (record { provider = p; model_id = m })

model_of : Json → Option ModelConfig
unfolding model_provider_of each
model_of v = do
  fs ← top v
  a ← str_field (codes "alias") fs
  f ← str_field (codes "fallback_to") fs
  ps ← member (read_list model_provider_of) [] (codes "providers") fs
  some (record { alias = a; fallback_to = f; providers = ps })

-- The timeout is no field of the body, so an entry that is put loses it.
provider_entry : Json → Option (Text × ProviderConfig)
provider_entry v = do
  fs ← top v
  id ← str_field (codes "id") fs
  u ← str_field (codes "base_url") fs
  c ← str_field (codes "convention") fs
  some (id, record { base_url = u; convention = c; response_header_timeout_seconds = 0 })

module _ (decode : Text → Option Json) (read : Text → Option Config) (encode : Config → Option Text)
    (fault : Fault) (now : ℕ) where
  -- What follows an edit of the configuration: 500 for its error, or the status of success.
  edited : ℕ → State → Manager × Option Error → ℕ × State
  edited fine s (m, none) = (fine, record s { manager = m })
  edited fine s (m, some e) = (500, record s { manager = m })

  created : State → Option Database → ℕ × State
  created s none = (500, s)
  created s (some d) = (201, record s { database = d })

  mint : Option Text → Option Text → State → ℕ × State
  unfolding created
  mint new_id none s = (400, s)
  mint new_id (some []) s = (400, s)
  mint none (some (b ∷ name)) s = (500, s)
  mint (some id) (some (b ∷ name)) s = created s (create_key id (b ∷ name) now s.database)

  store_key : Text → Option Text → State → ℕ × State
  store_key provider_id none s = (400, s)
  store_key provider_id (some []) s = (400, s)
  store_key provider_id (some (b ∷ v)) s =
      (201, record s { database = (add_provider_key provider_id (b ∷ v) now s.database).1 })

  drop_key : Option ℤ → State → ℕ × State
  drop_key none s = (400, s)
  drop_key (some (pos id)) s = (204, record s { database = delete_provider_key id s.database })
  drop_key (some (negsuc n)) s = (204, s)

  save_model : Option ModelConfig → State → ℕ × State
  unfolding edited
  save_model none s = (400, s)
  save_model (some m) s = elim m.alias [
    | [] ↦ (400, s)
    | b ∷ alias ↦ edited 200 s (upsert_model read encode m fault s.manager)
  ]

  save_provider : Option (Text × ProviderConfig) → State → ℕ × State
  unfolding edited
  save_provider none s = (400, s)
  save_provider (some ([], p)) s = (400, s)
  save_provider (some (b ∷ id, p)) s =
      edited 200 s (upsert_provider read encode (b ∷ id) p fault s.manager)

  name_in : Text → Text → Option Text
  name_in field body = decode body >>= top >>= str_field field

  pub handle : Action → State → ℕ × State
  unfolding mint store_key drop_key save_model save_provider edited name_in model_of provider_entry
  handle (mint_key new_id body) s = mint new_id (name_in (codes "name") body) s
  handle (revoke id) s = (204, record s { database = revoke_key id s.database })
  handle (put_model body) s = save_model (decode body >>= model_of) s
  handle (remove_model alias) s = edited 204 s (delete_model read encode alias fault s.manager)
  handle (put_provider body) s = save_provider (decode body >>= provider_entry) s
  handle (remove_provider id) s = edited 204 s (delete_provider read encode id fault s.manager)
  handle (add_key provider_id body) s = store_key provider_id (name_in (codes "key_value") body) s
  handle (remove_key row) s = drop_key row s
