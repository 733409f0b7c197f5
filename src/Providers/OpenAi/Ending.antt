-- ===== src/Providers/OpenAi/Ending.antt =====
-- Stopping the blocks: every open block is stopped once.
use claude_code_router.Common.{
  ℕ, ◌≡◌, refl, sym, subst, ◌∙◌, true, false, ◌==◌, List, [], ◌∷◌, Option, none, some, Bool-cases,
  ==_iff, inl, inr,
}
use claude_code_router.Providers.OpenAi.{
  Slot, unopened, opened, closed, Stream, close_thinking_block, close_thinking, stop_tools,
  stop_text, stop_blocks,
}
use claude_code_router.Providers.OpenAi.Protocol.{
  Tag, streaming, View, stops, Runs, and_then, IsLive, at, tool_owner, Distinct, thinking_tag,
  text_tag, tool_tag, put,
}
use claude_code_router.Providers.OpenAi.Slots.{owner-differs}
use claude_code_router.Providers.OpenAi.Blocks.{
  free_of, at-free, same_index, close_thinking_block-IsLive,
}

-- The output is the beginning of a message whose open blocks are those that `left` says.
abbrev pub Shows : (ℕ → Option Tag) → Stream → Type 0
Shows left s =
    (v : View) × Runs s.out v
    × (v.phase ≡ streaming)
    × ((i : ℕ) → v.blocks i ≡ left i)
    × (s.message_stop_sent ≡ false)
    × (s.stream_ended ≡ true)
    × (s.stream_started ≡ true)

stop_tools-Shows :
    (slots : List (Option ℕ)) (text : Slot) (s : Stream)
    → Distinct slots
    → ((i : ℕ) → text ≡ opened i → tool_owner slots i ≡ none)
    → Shows (λ i. at text text_tag i (tool_owner slots i)) s
    → Shows (λ i. at text text_tag i none) (stop_tools slots s)
unfolding stop_tools
stop_tools-Shows [] text s d f h = h
stop_tools-Shows (none ∷ slots) text s d f h = stop_tools-Shows slots text s d f h
stop_tools-Shows (some k ∷ slots) text s d f (v, r, p, b, u, x, y) =
    stop_tools-Shows slots text _ d.1 (λ i e. (owner-differs i k slots (f i e)).1)
      (_, and_then r (stops k tool_tag p (b k ∙ owned)), p, stopped, u, x, y)
  where
    some-ne-none : some tool_tag ≡ none → ⊥
    some-ne-none q = cc

    apart : (i : ℕ) → text ≡ opened i → (k == i) ≡ true → ⊥
    apart i e y = some-ne-none (rw y at (f i e))

    text_free : at text text_tag k none ≡ none
    text_free = free_of (λ i. (k == i) ≡ true) text text_tag k apart (same_index k)

    owned : at text text_tag k (tool_owner (some k ∷ slots) k) ≡ some tool_tag
    owned = at-free text text_tag k _ text_free ∙ rw (same_index k) refl

    stopped : (i : ℕ) → put k none v.blocks i ≡ at text text_tag i (tool_owner slots i)
    stopped i = elim (Bool-cases (k == i)) [
      | inl y ↦ rw y (rw (← (==_iff k i).0 y) (sym (at-free text text_tag k _ text_free ∙ d.0)))
      | inr n ↦ rw n (b i ∙ rw n refl)
    ]

stop_text-Shows :
    (sl : Slot) (s : Stream)
    → Shows (λ i. at sl text_tag i none) s
    → Shows (λ i. none) (stop_text sl s)
unfolding stop_text
stop_text-Shows unopened s h = h
stop_text-Shows closed s h = h
stop_text-Shows (opened k) s (v, r, p, b, u, x, y) =
    (_, and_then r (stops k text_tag p (b k ∙ rw (same_index k) refl)), p, stopped, u, x, y)
  where
    stopped : (i : ℕ) → put k none v.blocks i ≡ none
    stopped i = elim (Bool-cases (k == i)) [ inl y ↦ rw y refl | inr n ↦ rw n (b i ∙ rw n refl) ]

stop_tools-text : (slots : List (Option ℕ)) (s : Stream) → (stop_tools slots s).text ≡ s.text
unfolding stop_tools
stop_tools-text [] s = refl
stop_tools-text (none ∷ slots) s = stop_tools-text slots s
stop_tools-text (some k ∷ slots) s = stop_tools-text slots _

close_thinking-at :
    (sl : Slot) (s : Stream) (i : ℕ) (o : Option Tag)
    → s.thinking ≡ sl
    → at (close_thinking sl s).thinking thinking_tag i o ≡ o
unfolding close_thinking
close_thinking-at unopened s i o q = rw q refl
close_thinking-at (opened k) s i o q = refl
close_thinking-at closed s i o q = rw q refl

close_thinking_block-at :
    (s : Stream) (i : ℕ) (o : Option Tag)
    → at (close_thinking_block s).thinking thinking_tag i o ≡ o
unfolding close_thinking_block
close_thinking_block-at s i o = close_thinking-at s.thinking s i o refl

pub stop_blocks-Shows : (s : Stream) → IsLive true true s → Shows (λ i. none) (stop_blocks s)
unfolding stop_blocks
stop_blocks-Shows s l = by_parts (close_thinking_block-IsLive true s l)
  where
    s' : Stream
    s' = close_thinking_block s

    by_parts :
        IsLive true true s'
        → Shows
            (λ i. none)
            (stop_text (stop_tools s'.tool_slots s').text (stop_tools s'.tool_slots s'))
    by_parts (v, r, a) =
        stop_text-Shows (stop_tools s'.tool_slots s').text (stop_tools s'.tool_slots s') (
          subst (λ x. Shows (λ i. at x text_tag i none) (stop_tools s'.tool_slots s'))
            (sym (stop_tools-text s'.tool_slots s'))
            (stop_tools-Shows s'.tool_slots s'.text s' a.distinct a.text_alone (
              v,
              r,
              a.phase,
              (λ i. a.blocks i ∙ close_thinking_block-at s i _),
              a.unsent,
              a.ended,
              a.started,
            )))
