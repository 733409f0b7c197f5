-- ===== src/Config/Watch.antt =====
-- config/config.go, Watch: the loop over the messages of the file watcher. Each message comes with what
-- the file holds when the loop takes it; re-adding the watch after a rename is the watcher's business.
pub mod Current
use claude_code_router.Common.{
  Text, Bool, true, false, ◌||◌, if◌then◌else◌, List, [], ◌∷◌, Option, none, some,
}
use claude_code_router.Config.Types.{Config}
use claude_code_router.Config.Manager.{Manager, reload}

pub data Message : Type 0 where
  cancelled events_closed errors_closed watch_error : Message
  changed : (write rename : Bool) → Message

-- What ends the loop.
pub data Stop : Type 0 where
  context_done events_channel_closed errors_channel_closed : Stop

module _ (decode : Text → Option Config) (encode : Config → Option Text) where
  on_change : Bool → Manager → Manager
  on_change acts m = if acts then reload decode encode m else m

  -- The select for one message: the manager, and the reason to return, if it is one.
  pub take_message : Message → Manager → Manager × Option Stop
  unfolding on_change
  take_message cancelled m = (m, some context_done)
  take_message events_closed m = (m, some events_channel_closed)
  take_message errors_closed m = (m, some errors_channel_closed)
  take_message watch_error m = (m, none)
  take_message (changed write rename) m = (on_change (write || rename) m, none)

  -- The loop; what is left of the messages after a return is not read.
  pub watch : List (Option Text × Message) → Manager → Manager × Option Stop
  unfolding take_message
  watch [] m = (m, none)
  watch ((file, msg) ∷ msgs) m =
      let taken = take_message msg (record m { file = file }) in
      let rest = watch msgs taken.0 in elim taken.1 [ none ↦ rest | some s ↦ (taken.0, some s) ]
