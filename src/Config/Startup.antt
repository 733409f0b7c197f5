-- ===== src/Config/Startup.antt =====
-- config/config.go, GenerateIfMissing, and the first steps of main in cmd/ccr/main.go: a missing file
-- is written, and the manager is loaded from what is there. A file whose state cannot be read counts
-- as one that is there.
use claude_code_router.Common.{
  ◌≡◌, refl, ap, ◌∙◌, Text, codes, Bool, true, false, [], Option, none, some,
}
use claude_code_router.Config.Types.{Config}
use claude_code_router.Config.Manager.{
  Manager, apply_defaults, parse_file, load, set_reload_callback,
}

abbrev pub default_config : Config
default_config = record {
  server = record { client_port = 4080; admin_port = 4081; log_level = codes "info" };
  providers = some [];
  models = [];
}

-- How far the creation gets: an encoder that fails, or whose file does, leaves a part of the text.
pub data Creation : Type 0 where
  no_directory no_file : Creation
  cut_short : (left : Text) → Creation
  created : Creation

module _ (decode : Text → Option Config) (encode : Config → Option Text) where
  generated : Creation → Option Text × Bool
  generated no_directory = (none, false)
  generated no_file = (none, false)
  generated (cut_short left) = (some left, false)
  generated created = elim (encode default_config) [
    | none ↦ (some [], false)
    | some bytes ↦ (some bytes, true)
  ]

  -- The file afterwards, and whether there was no error.
  pub generate_if_missing : Creation → Option Text → Option Text × Bool
  unfolding generated
  generate_if_missing f (some bytes) = (some bytes, true)
  generate_if_missing f none = generated f

  abbrev loaded : Option Manager → Option Manager
  loaded none = none
  loaded (some m) = some (set_reload_callback decode encode m)

  abbrev started : Option Text × Bool → Option Manager
  started (file, false) = none
  started (file, true) = loaded (load decode encode file)

  -- `none` ends the program.
  pub start : Creation → Option Text → Option Manager
  unfolding generate_if_missing
  start f file = started (generate_if_missing f file)

  generate_fresh :
      (bytes : Text)
      → encode default_config ≡ some bytes
      → generate_if_missing created none ≡ (some bytes, true)
  unfolding generate_if_missing generated
  generate_fresh bytes e = rw (e, generated, generate_if_missing) refl

  load_default :
      (bytes : Text)
      → decode bytes ≡ some default_config
      → started (some bytes, true)
        ≡ some (record {
          current = default_config;
          file = some bytes;
          on_reload = true;
          callbacks = 0;
        })
  unfolding load parse_file apply_defaults set_reload_callback
  load_default bytes d = rw (d, parse_file, load) refl

  -- The first start without a file and every later one come up with the default configuration, where
  -- the TOML library reads back what it wrote.
  pub start_twice :
      (bytes : Text) (f : Creation)
      → encode default_config ≡ some bytes
      → decode bytes ≡ some default_config
      → let m : Manager = record {
        current = default_config;
        file = some bytes;
        on_reload = true;
        callbacks = 0;
      } in
        (start created none ≡ some m) × (start f m.file ≡ some m)
  unfolding start
  start_twice bytes f e d =
      (ap (λ x. started x) (generate_fresh bytes e) ∙ load_default bytes d, load_default bytes d)
