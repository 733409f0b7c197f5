-- ===== src/Admin/RawConfig.antt =====
-- admin/api.go, handleGetRawConfig and handleSetRawConfig: the configuration's file as the dashboard
-- shows and replaces it. The handler writes the file itself, past the manager; the manager's watcher
-- then reloads it.
use claude_code_router.Common.{ℕ, ◌≡◌, ◌⊎◌, ◌≤◌, arith, inl, inr, refl, Text, Option, none, some}
use claude_code_router.Config.Types.{Config}
use claude_code_router.Config.Manager.{Manager, parse_file, apply_defaults, reload}

-- 500 where the file cannot be read.
pub handle_get_raw_config : Manager → ℕ × Option Text
handle_get_raw_config m = elim m.file [ none ↦ (500, none) | some bytes ↦ (200, some bytes) ]

-- The outcome of os.WriteFile, which opens the file and truncates it before it writes: nothing happens,
-- a part of the bytes is in the file when the write fails, or all are.
pub data Write : Type 0 where
  not_opened : Write
  broken_off : (left : Text) → Write
  written : Write

abbrev write_file : Write → Text → Manager → ℕ × Manager
write_file not_opened bytes m = (500, m)
write_file (broken_off left) bytes m = (500, record m { file = some left })
write_file written bytes m = (204, record m { file = some bytes })

-- `none` is a body that cannot be read.
unfoldable pub handle_set_raw_config : Write → Option Text → Manager → ℕ × Manager
handle_set_raw_config f none m = (400, m)
handle_set_raw_config f (some bytes) m = write_file f bytes m

-- A body that could not be written whole has left the manager as it was, or a part of it in the file.
pub set_raw_config-error :
    (f : Write) (o : Option Text) (m : Manager)
    → let (status, n) = handle_set_raw_config f o m in
      400 ≤ status
      → (n ≡ m) ⊎ ((left : Text) × (f ≡ broken_off left) × (n ≡ record m { file = some left }))
unfolding handle_set_raw_config
set_raw_config-error f none m q = inl refl
set_raw_config-error not_opened (some bytes) m q = inl refl
set_raw_config-error (broken_off left) (some bytes) m q = inr (left, refl, refl)
set_raw_config-error written (some bytes) m q = absurd (omega (arith, q))

module _ (decode : Text → Option Config) (encode : Config → Option Text) where
  -- A raw configuration that was written and decodes is shown as it was sent, and the watcher's reload
  -- publishes it with the defaults filled in.
  pub set_raw_config-reload :
      (bytes : Text) (c : Config) (m : Manager)
      → decode bytes ≡ some c
      → let (status, n) = handle_set_raw_config written (some bytes) m in
        (status ≡ 204)
        × (handle_get_raw_config n ≡ (200, some bytes))
        × ((reload decode encode n).current ≡ apply_defaults c)
  unfolding handle_set_raw_config handle_get_raw_config reload parse_file
  set_raw_config-reload bytes c m d = (refl, refl, rw (d, parse_file) refl)
