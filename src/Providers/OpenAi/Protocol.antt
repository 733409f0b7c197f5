-- ===== src/Providers/OpenAi/Protocol.antt =====
-- What an Anthropic client accepts: the events of a message as steps between views of it, and the
-- part of the stream's state that a view of its output must agree with.
use claude_code_router.Common.{
  ℕ, ◌+◌, ◌≡◌, ◌≤◌, Text, Bool, true, false, ◌==◌, if◌then◌else◌, List, [], ◌∷◌, ◌++◌, Option, none,
  some,
}
use claude_code_router.Json.{ℤ}
use claude_code_router.Providers.OpenAi.{
  Kind, thinking_block, text_block, tool_use_block, DeltaKind, thinking_delta, text_delta,
  input_json_delta, Event, message_start, ping, content_block_start, content_block_delta,
  content_block_stop, message_delta, message_stop, Slot, unopened, opened, closed, Stream,
}

pub data Phase : Type 0 where
  fresh streaming ended complete : Phase

pub data Tag : Type 0 where
  thinking_tag text_tag tool_tag : Tag

abbrev pub tag_of : Kind → Tag
tag_of thinking_block = thinking_tag
tag_of text_block = text_tag
tag_of (tool_use_block id name) = tool_tag

abbrev pub tag_of_delta : DeltaKind → Tag
tag_of_delta thinking_delta = thinking_tag
tag_of_delta text_delta = text_tag
tag_of_delta input_json_delta = tool_tag

-- What a client knows after some events: the open blocks and the index that the next block must have.
pub record View : Type 0 where
  pub phase : Phase
  pub next : ℕ
  pub blocks : ℕ → Option Tag

abbrev pub blank : View
blank = record { phase = fresh; next = 0; blocks = λ _. none }

abbrev pub put : ℕ → Option Tag → (ℕ → Option Tag) → ℕ → Option Tag
put i t blocks j = if i == j then t else blocks j

-- Blocks are numbered in the order in which they start; a delta fits the kind of an open block; a
-- message ends when all its blocks are stopped.
pub data Step (v : View) : Event → View → Type 0 where
  starts :
      (id model : Text)
      → v.phase ≡ fresh
      → Step v (message_start id model) (record v { phase = streaming })
  pings : v.phase ≡ streaming → Step v ping v
  opens :
      (i : ℕ) (k : Kind)
      → v.phase ≡ streaming
      → v.next ≡ i
      → Step v
          (content_block_start i k)
          (record v { next = i + 1; blocks = put i (some (tag_of k)) v.blocks })
  writes :
      (i : ℕ) (d : DeltaKind) (t : Text)
      → v.phase ≡ streaming
      → v.blocks i ≡ some (tag_of_delta d)
      → Step v (content_block_delta i d t) v
  stops :
      (i : ℕ) (t : Tag)
      → v.phase ≡ streaming
      → v.blocks i ≡ some t
      → Step v (content_block_stop i) (record v { blocks = put i none v.blocks })
  ends :
      (reason : Text) (n : ℤ)
      → v.phase ≡ streaming
      → ((i : ℕ) → v.blocks i ≡ none)
      → Step v (message_delta reason n) (record v { phase = ended })
  completes : v.phase ≡ ended → Step v message_stop (record v { phase = complete })

-- The events lead from nothing to the view.
pub data Runs : List Event → View → Type 0 where
  nothing : Runs [] blank
  and_then :
      {es : List Event} {v w : View} {e : Event} → Runs es v → Step v e w → Runs (es ++ e ∷ []) w

-- The whole of a message, its blocks all stopped.
abbrev pub IsComplete : List Event → Type 0
IsComplete es = (v : View) × Runs es v × (v.phase ≡ complete) × ((i : ℕ) → v.blocks i ≡ none)

abbrev pub at : Slot → Tag → ℕ → Option Tag → Option Tag
at unopened t i other = other
at (opened j) t i other = if j == i then some t else other
at closed t i other = other

abbrev pub tool_owner : List (Option ℕ) → ℕ → Option Tag
tool_owner [] i = none
tool_owner (none ∷ xs) i = tool_owner xs i
tool_owner (some j ∷ xs) i = if j == i then some tool_tag else tool_owner xs i

-- What the stream's variables say of the block with index `i`.
abbrev pub owner : Slot → Slot → List (Option ℕ) → ℕ → Option Tag
owner thinking text slots i = at thinking thinking_tag i (at text text_tag i (tool_owner slots i))

-- No index below `n` is left out of account, and none stands twice.
abbrev pub Free : Slot → Slot → List (Option ℕ) → ℕ → Type 0
Free thinking text slots i =
    (at thinking thinking_tag i none ≡ none)
    × (at text text_tag i none ≡ none)
    × (tool_owner slots i ≡ none)

abbrev pub Distinct : List (Option ℕ) → Type 0
Distinct [] = Unit
Distinct (none ∷ xs) = Distinct xs
Distinct (some j ∷ xs) = (tool_owner xs j ≡ none) × Distinct xs

abbrev pub phase_of : Bool → Phase
phase_of false = fresh
phase_of true = streaming

pub record Agrees (begun finished : Bool) (s : Stream) (v : View) : Type 0 where
  pub started : s.stream_started ≡ begun
  pub ended : s.stream_ended ≡ finished
  pub unsent : s.message_stop_sent ≡ false
  pub phase : v.phase ≡ phase_of begun
  pub next : v.next ≡ s.next_block_idx
  pub blocks : (i : ℕ) → v.blocks i ≡ owner s.thinking s.text s.tool_slots i
  pub unused : (i : ℕ) → s.next_block_idx ≤ i → Free s.thinking s.text s.tool_slots i
  pub thinking_alone :
      (i : ℕ)
      → s.thinking ≡ opened i
      → (at s.text text_tag i none ≡ none) × (tool_owner s.tool_slots i ≡ none)
  pub text_alone : (i : ℕ) → s.text ≡ opened i → tool_owner s.tool_slots i ≡ none
  pub distinct : Distinct s.tool_slots

-- The output of the stream so far is the beginning of a message, and the variables agree with it.
abbrev pub IsLive : Bool → Bool → Stream → Type 0
IsLive begun finished s = (v : View) × Runs s.out v × Agrees begun finished s v
