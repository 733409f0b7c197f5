-- ===== src/Config/Watch/Current.antt =====
-- The running configuration while the file is watched.
use claude_code_router.Common.{
  ◌≡◌, Text, ◌||◌, List, [], ◌∷◌, Option, some, Bool-cases, Option-cases, inl, inr,
}
use claude_code_router.Config.Types.{Config}
use claude_code_router.Config.Manager.{Manager, parse_file, reload}
use claude_code_router.Config.Watch.{
  Message, cancelled, events_closed, errors_closed, watch_error, changed, take_message, on_change,
  watch,
}

module _ (decode : Text → Option Config) (encode : Config → Option Text) (P : Config → Type 0) where
  -- The property holds of every configuration that a file parses to.
  abbrev pub HoldsOfParsed : Type 0
  HoldsOfParsed = (file : Option Text) (c : Config) → parse_file decode encode file ≡ some c → P c

  reload-keeps : (m : Manager) → HoldsOfParsed → P m.current → P (reload decode encode m).current
  unfolding reload
  reload-keeps m h p = elim (Option-cases (parse_file decode encode m.file)) [
    | inl n ↦ rw (n, reload) p
    | inr (c, q) ↦ rw (q, reload) (h m.file c q)
  ]

  take_message-keeps :
      (msg : Message) (m : Manager)
      → HoldsOfParsed
      → P m.current
      → P (take_message decode encode msg m).0.current
  unfolding take_message on_change
  take_message-keeps cancelled m h p = p
  take_message-keeps events_closed m h p = p
  take_message-keeps errors_closed m h p = p
  take_message-keeps watch_error m h p = p
  take_message-keeps (changed write rename) m h p = elim (Bool-cases (write || rename)) [
    | inl y ↦ rw y (reload-keeps m h p)
    | inr n ↦ rw n p
  ]

  -- Whatever the watcher reports and whatever the file holds meanwhile, broken or missing included, the
  -- running configuration has every property that it had at the start and that all parsed files have.
  pub watch_keeps :
      (msgs : List (Option Text × Message)) (m : Manager)
      → HoldsOfParsed
      → P m.current
      → P (watch decode encode msgs m).0.current
  unfolding watch
  watch_keeps [] m h p = p
  watch_keeps ((file, msg) ∷ msgs) m h p =
      elim (Option-cases (take_message decode encode msg (record m { file = file })).1) [
        | inl n ↦ rw (n, watch) (watch_keeps msgs _ h (take_message-keeps msg _ h p))
        | inr (s, q) ↦ rw (q, watch) (take_message-keeps msg _ h p)
      ]
