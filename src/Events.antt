-- ===== src/Events.antt =====
-- The framing of server-sent events, as every reader of the program takes it apart: lines, and the
-- fields of a line.
pub mod Lines
use claude_code_router.Common.{
  ℕ, Text, codes, cut_prefix, trim_space, Bool, true, false, if◌then◌else◌, Option, none, some,
  List, [], ◌∷◌,
}

-- What the switch of a reader makes of a line: an `event:` or `data:` field with its value trimmed,
-- the empty line, or anything else.
pub data Line : Type 0 where
  event data_ : Text → Line
  blank other : Line

not_event : Text → Option Text → Line
not_event line (some v) = data_ (trim_space v)
not_event [] none = blank
not_event (b ∷ line) none = other

classify_with : Text → Option Text → Line
unfolding not_event
classify_with line (some v) = event (trim_space v)
classify_with line none = not_event line (cut_prefix (codes "data:") line)

unfoldable pub classify : Text → Line
unfolding classify_with
classify line = classify_with line (cut_prefix (codes "event:") line)
