-- ===== src/Tests/Store.antt =====
-- The configuration's manager, the key tables and the check of a client's token.
use claude_code_router.Common.{Bool-cases, inl, inr}
use claude_code_router.Config.Manager.{apply_defaults}
use claude_code_router.Config.Watch.{Message, changed, watch}
use claude_code_router.Config.Watch.Current.{watch_keeps}
use claude_code_router.Common.{
  some_inj, ℕ, ◌+◌, ◌≡◌, ◌≢◌, ◌↔◌, ◌≤◌, refl, sym, ap, Text, codes, text_eq, Bool, true, false, not,
  ◌==◌, if◌then◌else◌, List, [], ◌∷◌, ◌++◌, Option, none, some, length, select, map, All, arith,
}
use claude_code_router.Config.Types.{Config, ModelConfig, ProviderConfig}
use claude_code_router.Config.Manager.{
  Manager, Error, Fault, none_fails, parse_file, load, reload, upsert_model, delete_model,
  upsert_provider, delete_provider,
}
use claude_code_router.Config.Manager.Reload.{Readable, reload-upsert_model}
use claude_code_router.Db.{Database, empty_database, get_key, create_key, add_provider_key}
use claude_code_router.Db.Keys.{new_row, IsOrdered}
use claude_code_router.Db.ProviderKeys.{add_provider_key-IsOrdered}
use claude_code_router.Middleware.Auth.{extract_token, auth, served}
use claude_code_router.Middleware.Auth.Access.{auth_iff}

abbrev sonnet : ModelConfig
sonnet = record { alias = codes "sonnet"; fallback_to = []; providers = [] }

abbrev nim : ProviderConfig
nim = record {
  base_url = codes "https://nim";
  convention = codes "openai";
  response_header_timeout_seconds = 0;
}

abbrev bare : Config
bare = record {
  server = record { client_port = 4080; admin_port = 4081; log_level = codes "info" };
  providers = some ((codes "old", nim) ∷ []);
  models = [];
}

abbrev with_sonnet : Config
with_sonnet = record bare { models = sonnet ∷ [] }

-- The file "0" is the bare configuration, and "1" the one with a model.
abbrev pub decode : Text → Option Config
decode s = if text_eq s (codes "1") then some with_sonnet else some bare

abbrev pub encode : Config → Option Text
encode c = elim c.models [ [] ↦ some (codes "0") | m ∷ ms ↦ some (codes "1") ]

abbrev pub manager : Manager
manager = record { current = bare; file = some (codes "0"); on_reload = true; callbacks = 0 }

abbrev upserted : Manager
upserted = record manager { current = with_sonnet; file = some (codes "1") }

parsed : parse_file decode encode manager.file ≡ some bare
unfolding parse_file text_eq claude_code_router.Config.Manager.apply_defaults
parsed = refl

upserts : upsert_model decode encode sonnet none_fails manager ≡ (upserted, none)
unfolding upsert_model text_eq claude_code_router.Config.Manager.apply_defaults
upserts = refl

readable : Readable decode encode with_sonnet
unfolding text_eq
readable b e = ap decode (sym (some_inj e))

reload-upsert_model_example : (reload decode encode upserted).current ≡ upserted.current
reload-upsert_model_example =
    reload-upsert_model decode encode sonnet none_fails manager upserted readable upserts

abbrev full : Manager
full = upserted

full_parsed : parse_file decode encode full.file ≡ some with_sonnet
unfolding parse_file text_eq claude_code_router.Config.Manager.apply_defaults
full_parsed = refl

deletes : delete_model decode encode (codes "sonnet") none_fails full ≡ (manager, none)
unfolding delete_model text_eq claude_code_router.Config.Manager.apply_defaults
deletes = refl

abbrev grown : Manager
grown = record manager {
  current = record bare { providers = some ((codes "old", nim) ∷ (codes "new", nim) ∷ []) };
}

provider_upserts :
    upsert_provider decode encode (codes "new") nim none_fails manager ≡ (grown, none)
unfolding upsert_provider text_eq claude_code_router.Config.Manager.apply_defaults
provider_upserts = refl

abbrev shrunk : Manager
shrunk = record manager { current = record bare { providers = some [] } }

provider_deletes : delete_provider decode encode (codes "old") none_fails manager ≡ (shrunk, none)
unfolding delete_provider text_eq claude_code_router.Config.Manager.apply_defaults
provider_deletes = refl

abbrev pub header : Text → Text
header name = if text_eq name (codes "Authorization") then codes "Bearer k1" else []

abbrev pub with_key : Database
with_key = record empty_database { client_keys = new_row (codes "k1") (codes "laptop") 5 ∷ [] }

key_created : create_key (codes "k1") (codes "laptop") 5 empty_database ≡ some with_key
unfolding create_key empty_database
key_created = refl

auth_iff_example :
    ((auth header 9 with_key).0 ≡ served (new_row (codes "k1") (codes "laptop") 5)) ↔ (
      (extract_token header ≢ [])
      × (get_key (extract_token header) with_key ≡ some (new_row (codes "k1") (codes "laptop") 5))
      × (false ≡ false))
auth_iff_example = auth_iff header 9 with_key (new_row (codes "k1") (codes "laptop") 5)

has_token : extract_token header ≢ []
unfolding extract_token text_eq claude_code_router.Common.cut_prefix
has_token e = apart b'k' (codes "1") e
  where
    apart : (b : ℕ) (t : Text) → b ∷ t ≡ [] → ⊥
    apart b t q = cc

token_created : create_key (extract_token header) (codes "laptop") 5 empty_database ≡ some with_key
unfolding create_key empty_database extract_token text_eq claude_code_router.Common.cut_prefix
token_created = refl

abbrev one_key : Database
one_key = (add_provider_key (codes "nim") (codes "secret") 5 empty_database).1

empty_database-IsOrdered : IsOrdered empty_database
unfolding empty_database
empty_database-IsOrdered = (tt, tt)

abbrev one_key-IsOrdered : IsOrdered one_key
one_key-IsOrdered =
    add_provider_key-IsOrdered (codes "nim") (codes "secret") 5 empty_database
      empty_database-IsOrdered

-- Every file that this decoder reads names the port 4080.
abbrev OnPort : Config → Type 0
OnPort c = c.server.client_port ≡ 4080

parsed-OnPort :
    (file : Option Text) (c : Config) → parse_file decode encode file ≡ some c → OnPort c
unfolding parse_file apply_defaults
parsed-OnPort none c e = absurd (none-ne-some e)
  where
    none-ne-some : none ≡ some c → ⊥
    none-ne-some q = cc
parsed-OnPort (some s) c e = elim (Bool-cases (text_eq s (codes "1"))) [
  | inl y ↦ sym (ap (λ x. x.server.client_port) (some_inj (rw (y, parse_file) at e)))
  | inr n ↦ sym (ap (λ x. x.server.client_port) (some_inj (rw (n, parse_file) at e)))
]

abbrev messages : List (Option Text × Message)
messages = (some (codes "1"), changed true false) ∷ (none, changed false true) ∷ []

watch_keeps_example : OnPort (watch decode encode messages manager).0.current
watch_keeps_example = watch_keeps decode encode OnPort messages manager parsed-OnPort refl
