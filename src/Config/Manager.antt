-- ===== src/Config/Manager.antt =====
-- config/config.go and config/write.go: the manager, its file and the dashboard's edits. The file
-- system is one file, the config's; `decode` and `encode` are the TOML library, and `faults` says how
-- far the writing of the temporary file gets. Every method runs under the manager's mutex.
pub mod Edits
pub mod Reload
use claude_code_router.Common.{
  ℕ, zero, suc, Text, codes, text_eq, Bool, true, false, not, ◌==◌, if◌then◌else◌, List, [], ◌∷◌,
  ◌++◌, Option, none, some, select,
}
use claude_code_router.Config.Types.{
  ServerConfig, ProviderConfig, ModelConfig, ModelProvider, Config, Dict, entries, lookup,
}

-- The errors that the methods return, by the call that failed.
pub data Error : Type 0 where
  load_current create_temporary encode_failed close_temporary replace_failed : Error

pub data Result {ℓ} (A : Type ℓ) : Type ℓ where
  ok : A → Result A
  err : Error → Result A

abbrev pub or_port : ℕ → ℕ → ℕ
or_port zero d = d
or_port (suc n) d = suc n

abbrev pub or_level : Text → Text → Text
or_level [] d = d
or_level (b ∷ s) d = b ∷ s

unfoldable pub apply_defaults : Config → Config
apply_defaults c = record c {
  server = record {
    client_port = or_port c.server.client_port 4080;
    admin_port = or_port c.server.admin_port 4081;
    log_level = or_level c.server.log_level (codes "info");
  };
  providers = some (entries c.providers);
}

-- The steps of writeConfig that may fail.
pub data Fault : Type 0 where
  none_fails create_fails close_fails rename_fails : Fault

-- The manager with the file that it is bound to; `on_reload` counts the reload callbacks started.
pub record Manager : Type 0 where
  pub current : Config
  pub file : Option Text
  pub on_reload : Bool
  pub callbacks : ℕ

-- The first entry of the alias is replaced; an alias that is not there is added at the end.
pub replace_model : ModelConfig → List ModelConfig → List ModelConfig
replace_model m [] = m ∷ []
replace_model m (x ∷ xs) = if text_eq x.alias m.alias then m ∷ xs else x ∷ replace_model m xs

pub insert_provider : Text → ProviderConfig → Dict ProviderConfig → Dict ProviderConfig
insert_provider id p [] = (id, p) ∷ []
insert_provider id p ((j, q) ∷ d) =
    if text_eq j id then (id, p) ∷ d else (j, q) ∷ insert_provider id p d

module _ (decode : Text → Option Config) (encode : Config → Option Text) where
  unfoldable pub parse_file : Option Text → Option Config
  parse_file none = none
  parse_file (some bytes) = elim (decode bytes) [ none ↦ none | some c ↦ some (apply_defaults c) ]

  unfoldable pub load : Option Text → Option Manager
  load file = elim (parse_file file) [
    | none ↦ none
    | some c ↦ some (record { current = c; file = file; on_reload = false; callbacks = 0 })
  ]

  unfoldable pub set_reload_callback : Manager → Manager
  set_reload_callback m = record m { on_reload = true }

  unfoldable pub reload : Manager → Manager
  reload m = elim (parse_file m.file) [
    | none ↦ m
    | some c ↦ record m {
      current = c;
      callbacks = if m.on_reload then suc m.callbacks else m.callbacks;
    }
  ]

  -- The rename is the only step that changes the file.
  write_config : Fault → Config → Option Text → Result (Option Text)
  write_config create_fails c file = err create_temporary
  write_config none_fails c file = elim (encode c) [
    | none ↦ err encode_failed
    | some bytes ↦ ok (some bytes)
  ]
  write_config close_fails c file = elim (encode c) [
    | none ↦ err encode_failed
    | some bytes ↦ err close_temporary
  ]
  write_config rename_fails c file = elim (encode c) [
    | none ↦ err encode_failed
    | some bytes ↦ err replace_failed
  ]

  commit : Manager → Config → Result (Option Text) → Manager × Option Error
  commit m c (ok file) = (record m { current = c; file = file }, none)
  commit m c (err e) = (m, some e)

  -- The common shape of the four edits: read the file, change it, write it, and only then publish it.
  unfoldable pub edit : (Config → Config) → Fault → Manager → Manager × Option Error
  unfolding parse_file write_config commit
  edit change fault m = elim (parse_file m.file) [
    | none ↦ (m, some load_current)
    | some c ↦ commit m (change c) (write_config fault (change c) m.file)
  ]

  unfoldable pub upsert_model : ModelConfig → Fault → Manager → Manager × Option Error
  unfolding edit replace_model
  upsert_model model = edit (λ c. record c { models = replace_model model c.models })

  unfoldable pub delete_model : Text → Fault → Manager → Manager × Option Error
  unfolding edit
  delete_model alias =
      edit (λ c. record c { models = select (λ m. not (text_eq m.alias alias)) c.models })

  unfoldable pub delete_provider : Text → Fault → Manager → Manager × Option Error
  unfolding edit
  delete_provider id = edit (λ c. record c {
    providers = some (select (λ e. not (text_eq e.0 id)) (entries c.providers));
  })

  unfoldable pub upsert_provider : Text → ProviderConfig → Fault → Manager → Manager × Option Error
  unfolding edit insert_provider
  upsert_provider id prov =
      edit (λ c. record c { providers = some (insert_provider id prov (entries c.providers)) })
