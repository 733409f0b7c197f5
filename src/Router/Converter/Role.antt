-- ===== src/Router/Converter/Role.antt =====
-- A converted stream has one chunk that carries a role.
use claude_code_router.Common.{
  ℕ, ◌+◌, ◌≤◌, ◌≡◌, refl, Text, codes, text_eq, trim_right_byte, Bool, if◌then◌else◌, List, [], ◌∷◌,
  ◌++◌, Option, none, some, Bool-cases, inl, inr, arith,
}
use claude_code_router.Json.{Json}
use claude_code_router.Events.{Line, event, data_, blank, other, classify}
use claude_code_router.Router.BlockEvents.{BlockStart, BlockDelta}
use claude_code_router.Router.OpenAiChunks.{Emitted, chunk, done}
use claude_code_router.Router.Converter.{
  Converter, State, Event, message_start, content_block_start, content_block_delta, message_delta,
  message_stop, unknown, convert_event, flush, process, process_line, step, feed, write,
  new_converter, emit_role, start_tool, delta_chunk, arguments_delta, send,
}

-- An invariant of the state and the writer that every line keeps is kept by Write.
module _ {W : Type 0} (put : Emitted → W → W × Bool) (decode : Text → Option Json)
    (P : State → W → Type 0)
    (keep : (line : Text) (c : State) (w : W)
      → P c w
      → P (process_line decode line c).0 (send put decode (process_line decode line c).1 w).0) where
  feed_keeps :
      (ls : List Text) (rest : Text) (c : State) (w : W)
      → P c w
      → let r = feed put decode ls rest c w in P r.0.state r.1
  unfolding feed step
  feed_keeps [] rest c w h = h
  feed_keeps (l ∷ ls) rest c w h = elim (Bool-cases (step put decode l c w).2) [
    | inl e ↦ rw e (feed_keeps ls rest _ _ (keep (trim_right_byte 13 l) c w h))
    | inr e ↦ rw e (keep (trim_right_byte 13 l) c w h)
  ]

  write_keeps :
      (p : Text) (c : Converter) (w : W)
      → P c.state w
      → let r = write put decode p c w in P r.0.state r.1
  unfolding write
  write_keeps p c w h = feed_keeps _ _ c.state w h

-- How many chunks carry a role.
abbrev role_of : Emitted → ℕ
role_of done = 0
role_of (chunk k) = if text_eq k.delta.role [] then 0 else 1

abbrev pub roles : List Emitted → ℕ
roles [] = 0
roles (e ∷ es) = role_of e + roles es

roles-append : (es : List Emitted) (e : Emitted) → roles (es ++ e ∷ []) ≡ roles es + role_of e
roles-append [] e = omega arith
roles-append (x ∷ es) e = omega (arith, roles-append es e)

abbrev said : State → ℕ
said c = if c.emitted_role then 1 else 0

abbrev role_in : Option Emitted → ℕ
role_in none = 0
role_in (some e) = role_of e

arguments-role : (d : BlockDelta) (c : State) (t : Option ℕ) → role_in (arguments_delta d c t) ≡ 0
unfolding arguments_delta text_eq
arguments-role d c none = refl
arguments-role d c (some t) = elim (Bool-cases (text_eq d.partial_json [])) [
  | inl q ↦ rw (arguments_delta, q)
  | inr q ↦ rw (arguments_delta, q)
]

delta_chunk-role : (d : BlockDelta) (c : State) → role_in (delta_chunk d c) ≡ 0
unfolding delta_chunk text_eq
delta_chunk-role d c = elim (Bool-cases (text_eq d.type (codes "text_delta"))) [
  | inl a ↦ rw a
  | inr a ↦ elim (Bool-cases (text_eq d.type (codes "thinking_delta"))) [
    | inl b ↦ elim (Bool-cases (text_eq d.thinking [])) [
      | inl e ↦ rw (a, b, e)
      | inr e ↦ rw (a, b, e)
    ]
    | inr b ↦ elim (Bool-cases (text_eq d.type (codes "input_json_delta"))) [
      | inl e ↦ rw (a, b, e) (arguments-role d c (c.block_tool_idx d.index))
      | inr e ↦ rw (a, b, e)
    ]
  ]
]

-- The role is said at most once: a chunk with a role is written only where none was.
abbrev Says : State → State × Option Emitted → Type 0
Says c r = role_in r.1 + said c ≤ said r.0

emit_role-Says : (c : State) → Says c (emit_role c)
unfolding emit_role text_eq
emit_role-Says c = elim (Bool-cases c.emitted_role) [
  | inl e ↦ rw e (omega arith)
  | inr e ↦ rw e (omega arith)
]

start_tool-Says : (b : BlockStart) (c : State) → Says c (start_tool b c)
unfolding start_tool text_eq
start_tool-Says b c = elim (Bool-cases (text_eq b.type (codes "tool_use"))) [
  | inl e ↦ rw e (omega arith)
  | inr e ↦ rw e (omega arith)
]

convert_event-Says : (e : Event) (c : State) → Says c (convert_event e c)
unfolding convert_event text_eq
convert_event-Says (message_start none) c = emit_role-Says c
convert_event-Says (message_start (some m)) c = emit_role-Says _
convert_event-Says (content_block_start none) c = omega arith
convert_event-Says (content_block_start (some b)) c = start_tool-Says b c
convert_event-Says (content_block_delta none) c = omega arith
convert_event-Says (content_block_delta (some d)) c = omega (arith, delta_chunk-role d c)
convert_event-Says (message_delta none) c = omega arith
convert_event-Says (message_delta (some d)) c = omega arith
convert_event-Says message_stop c = omega arith
convert_event-Says unknown c = omega arith

flush-Says :
    (decode : Text → Option Json) (name : Text) (ds : List Text) (c : State)
    → Says c (flush decode name ds c)
unfolding flush
flush-Says decode [] ds c = omega arith
flush-Says decode (b ∷ name) [] c = omega arith
flush-Says decode (b ∷ name) (d ∷ ds) c = convert_event-Says _ c

process-Says :
    (decode : Text → Option Json) (line : Line) (c : State) → Says c (process decode line c)
unfolding process
process-Says decode (event v) c = omega arith
process-Says decode (data_ v) c = omega arith
process-Says decode blank c = flush-Says decode c.cur_event c.cur_data c
process-Says decode other c = omega arith

-- A writer that keeps the chunks and may fail as it likes.
abbrev pub collecting :
    (Emitted → List Emitted → Bool) → Emitted → List Emitted → List Emitted × Bool
collecting fine e es = (es ++ e ∷ [], fine e es)

line-keeps :
    (fine : Emitted → List Emitted → Bool) (decode : Text → Option Json) (line : Text) (c : State)
    (es : List Emitted)
    → roles es ≤ said c
    → roles (send (collecting fine) decode (process_line decode line c).1 es).0
      ≤ said (process_line decode line c).0
unfolding process_line send
line-keeps fine decode line c es h =
    go (process decode (classify line) c) (process-Says decode (classify line) c)
  where
    go :
        (r : State × Option Emitted)
        → Says c r
        → roles (send (collecting fine) decode r.1 es).0 ≤ said r.0
    go (c', none) s = omega arith
    go (c', some e) s = omega (arith, roles-append es e)

-- Whatever bytes a new converter is given, and however its writer fails, at most one of the chunks
-- that it writes carries a role.
pub write-roles :
    (fine : Emitted → List Emitted → Bool) (decode : Text → Option Json) (p : Text)
    → roles (write (collecting fine) decode p new_converter []).1 ≤ 1
unfolding new_converter
write-roles fine decode p =
    let h =
      write_keeps (collecting fine) decode (λ c es. roles es ≤ said c) (line-keeps fine decode) p
        new_converter [] (omega arith) in
    bounded (write (collecting fine) decode p new_converter []).0.state _ h
  where
    bounded : (c : State) (n : ℕ) → n ≤ said c → n ≤ 1
    bounded c n h = ground arith
