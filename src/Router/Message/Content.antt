-- ===== src/Router/Message/Content.antt =====
-- What the blocks of a message hold after the events of a stream.
use claude_code_router.Common.{
  text_eq_iff, some_inj, codes, ◌⊎◌, ◌≡◌, ◌∙◌, refl, sym, ap, inl, inr, Text, text_eq, Bool, true,
  false, ◌&&◌, ◌||◌, List, [], ◌∷◌, ◌++◌, some, Bool-cases, if◌then◌else◌,
}
use mathlib.Core.List.{append_assoc, append-nil}
use claude_code_router.Json.{ℤ, same_int}
use claude_code_router.Router.BlockEvents.{BlockDelta}
use claude_code_router.Router.Message.{
  BlockState, Builder, Event, message_start, content_block_start, content_block_delta,
  message_delta, unknown, on_event, extend, extended,
}

-- The events of a stream, one after the other.
pub on_events : List Event → Builder → Builder
on_events [] b = b
on_events (e ∷ es) b = on_events es (on_event e b)

abbrev pub starts_block : ℤ → Event → Bool
starts_block i (content_block_start s) = same_int s.index i
starts_block i _ = false

-- Whether one of the events starts the block with index `i`.
abbrev pub starts_any : ℤ → List Event → Bool
starts_any i [] = false
starts_any i (e ∷ es) = starts_block i e || starts_any i es

module _ (type : Text) (pick : BlockDelta → Text) where
  -- What the deltas of this type for the block with index `i` carry, in their order.
  abbrev pub carried : ℤ → List Event → Text
  carried i [] = []
  carried i (content_block_delta d ∷ es) =
      if same_int d.index i && text_eq d.type type then pick d ++ carried i es else carried i es
  carried i (message_start m ∷ es) = carried i es
  carried i (content_block_start s ∷ es) = carried i es
  carried i (message_delta f ∷ es) = carried i es
  carried i (unknown ∷ es) = carried i es

  module _ (get : BlockState → Text)
      (adds : (d : BlockDelta) (s : BlockState)
        → get (extend d s) ≡ (if text_eq d.type type then get s ++ pick d else get s)) where
    abbrev Holds : ℤ → List Event → BlockState → Builder → Type 0
    Holds i es s b =
        (t : BlockState) × ((on_events es b).blocks i ≡ some t) × (get t ≡ get s ++ carried i es)

    delta-Holds :
        (i : ℤ) (d : BlockDelta) (es : List Event) (s : BlockState) (b : Builder)
        → b.blocks i ≡ some s
        → ((s' : BlockState)
            → (on_event (content_block_delta d) b).blocks i ≡ some s'
            → Holds i es s' (on_event (content_block_delta d) b))
        → Holds i (content_block_delta d ∷ es) s b
    unfolding on_events on_event
    delta-Holds i d es s b e later = elim (Bool-cases (same_int d.index i)) [
      | inr n ↦ let r = later s (rw n e) in (r.0, r.1, rw n r.2)
      | inl y ↦
          let r = later (extend d s) (rw y (ap (extended d) e)) in
          (r.0, r.1, r.2 ∙ grown y (Bool-cases (text_eq d.type type)))
    ]
      where
        grown :
            same_int d.index i ≡ true
            → ((text_eq d.type type ≡ true) ⊎ (text_eq d.type type ≡ false))
            → get (extend d s) ++ carried i es ≡ get s ++ carried i (content_block_delta d ∷ es)
        grown y (inl t) = rw (adds d s) (rw (y, t) (append_assoc (get s) (pick d) (carried i es)))
        grown y (inr f) = rw (adds d s) (rw (y, f) refl)

    events-Hold :
        (i : ℤ) (es : List Event) (s : BlockState) (b : Builder)
        → b.blocks i ≡ some s
        → starts_any i es ≡ false
        → Holds i es s b
    unfolding on_events on_event
    events-Hold i [] s b e n = (s, e, sym (append-nil (get s)))
    events-Hold i (message_start m ∷ es) s b e n = events-Hold i es s _ e n
    events-Hold i (message_delta f ∷ es) s b e n = events-Hold i es s _ e n
    events-Hold i (unknown ∷ es) s b e n = events-Hold i es s b e n
    events-Hold i (content_block_delta d ∷ es) s b e n =
        delta-Holds i d es s b e
          (λ s' q. events-Hold i es s' (on_event (content_block_delta d) b) q n)
    events-Hold i (content_block_start x ∷ es) s b e n = elim (Bool-cases (same_int x.index i)) [
      | inl y ↦ absurd (true-ne-false (rw y at n))
      | inr m ↦ events-Hold i es s _ (rw m e) (rw m at n)
    ]
      where
        true-ne-false : true ≡ false → ⊥
        true-ne-false q = cc

extend-text :
    (d : BlockDelta) (s : BlockState)
    → (extend d s).text ≡ (if text_eq d.type (codes "text_delta") then s.text ++ d.text else s.text)
unfolding extend
extend-text d s = elim (Bool-cases (text_eq d.type (codes "text_delta"))) [
  | inl y ↦ rw y refl
  | inr n ↦ elim (Bool-cases (text_eq d.type (codes "thinking_delta"))) [
    | inl y ↦ rw (n, y) refl
    | inr m ↦ elim (Bool-cases (text_eq d.type (codes "input_json_delta"))) [
      | inl y ↦ rw (n, m, y) refl
      | inr k ↦ rw (n, m, k) refl
    ]
  ]
]

extend-tool_json :
    (d : BlockDelta) (s : BlockState)
    → (extend d s).tool_json ≡ (
        if text_eq d.type (codes "input_json_delta")
        then s.tool_json ++ d.partial_json
        else s.tool_json)
unfolding extend text_eq
extend-tool_json d s = elim (Bool-cases (text_eq d.type (codes "text_delta"))) [
  | inl y ↦ rw ((text_eq_iff d.type (codes "text_delta")).0 y) refl
  | inr n ↦ elim (Bool-cases (text_eq d.type (codes "thinking_delta"))) [
    | inl y ↦ rw ((text_eq_iff d.type (codes "thinking_delta")).0 y) refl
    | inr m ↦ elim (Bool-cases (text_eq d.type (codes "input_json_delta"))) [
      | inl y ↦ rw (n, m, y) refl
      | inr k ↦ rw (n, m, k) refl
    ]
  ]
]

-- Once a block is started, and while no event starts another with its index, its text is the
-- concatenation of the text deltas for that index and its tool input the concatenation of the JSON
-- deltas, in their order, whatever events for other blocks stand between them.
pub block_content :
    (i : ℤ) (es : List Event) (s : BlockState) (b : Builder)
    → b.blocks i ≡ some s
    → starts_any i es ≡ false
    → (t : BlockState) × ((on_events es b).blocks i ≡ some t)
      × (t.text ≡ s.text ++ carried (codes "text_delta") (λ d. d.text) i es)
      × (t.tool_json ≡ s.tool_json ++ carried (codes "input_json_delta") (λ d. d.partial_json) i es)
block_content i es s b e n =
    let x = events-Hold (codes "text_delta") (λ d. d.text) (λ t. t.text) extend-text i es s b e n in
    let y =
      events-Hold (codes "input_json_delta") (λ d. d.partial_json) (λ t. t.tool_json)
        extend-tool_json i es s b e n in
    (x.0, x.1, x.2, ap (λ t. t.tool_json) (some_inj (sym x.1 ∙ y.1)) ∙ y.2)
