-- ===== src/Providers/OpenAi/TextBlocks.antt =====
-- The text block: it opens behind the thinking block, which it closes, and takes text deltas.
use claude_code_router.Common.{
  [], ◌∷◌, arith, ◌+◌, subst, ℕ, ◌≡◌, refl, sym, ◌∙◌, Text, Bool, true, ◌==◌, none, some,
  Bool-cases, ==_iff, inl, inr,
}
use claude_code_router.Providers.OpenAi.{
  text_delta, text_block, text_delta_to, content_block_start, close_thinking_block, open_text,
  emit_text_delta, Slot, unopened, opened, closed, Stream, emit, close_thinking,
}
use claude_code_router.Providers.OpenAi.Protocol.{
  tool_owner, Free, opens, and_then, IsLive, at, owner, thinking_tag, text_tag, put,
}
use claude_code_router.Providers.OpenAi.Blocks.{
  at-free, free_of, opened_inj, later_index, same_index, emit_delta-IsLive, close_thinking-IsLive,
}

start_text-IsLive :
    (finished : Bool) (s : Stream)
    → s.text ≡ unopened
    → IsLive true finished s
    → IsLive true finished (
        emit
          (content_block_start s.next_block_idx text_block)
          (record s { text = opened s.next_block_idx; next_block_idx = s.next_block_idx + 1 }))
start_text-IsLive finished s q (v, r, a) = (
  _,
  and_then r (opens n text_block a.phase a.next),
  record {
    started = a.started;
    ended = a.ended;
    unsent = a.unsent;
    phase = a.phase;
    next = refl;
    blocks = opened_now;
    unused = λ j h. (
      (a.unused j (omega (arith, h))).0,
      rw (later_index n j h) refl,
      (a.unused j (omega (arith, h))).2,
    );
    thinking_alone = λ j e. (apart j e, (a.thinking_alone j e).1);
    text_alone = λ j e. subst (λ x. tool_owner s.tool_slots x ≡ none) (opened_inj e) free.2;
    distinct = a.distinct;
  },
)
  where
    n : ℕ
    n = s.next_block_idx

    free : Free s.thinking s.text s.tool_slots n
    free = a.unused n (omega arith)

    apart : (j : ℕ) → s.thinking ≡ opened j → at (opened n) text_tag j none ≡ none
    apart j e = elim (Bool-cases (n == j)) [
      | inl y ↦ absurd (some-ne-none (rw (e, ← (==_iff n j).0 y, same_index n) at free.0))
      | inr m ↦ rw m refl
    ]
      where
        some-ne-none : some thinking_tag ≡ none → ⊥
        some-ne-none p = cc

    opened_now :
        (j : ℕ) → put n (some text_tag) v.blocks j ≡ owner s.thinking (opened n) s.tool_slots j
    opened_now j = elim (Bool-cases (n == j)) [
      | inl y ↦
          rw y (
            rw (← (==_iff n j).0 y)
              (sym (at-free s.thinking thinking_tag n (some text_tag) free.0)))
      | inr m ↦ rw m (a.blocks j ∙ rw q refl)
    ]

close_thinking-text : (sl : Slot) (s : Stream) → (close_thinking sl s).text ≡ s.text
unfolding close_thinking
close_thinking-text unopened s = refl
close_thinking-text (opened i) s = refl
close_thinking-text closed s = refl

open_text-IsLive :
    (finished : Bool) (sl : Slot) (s : Stream)
    → s.text ≡ sl
    → IsLive true finished s
    → IsLive true finished (open_text sl s)
unfolding open_text close_thinking_block
open_text-IsLive finished (opened i) s q l = l
open_text-IsLive finished closed s q l = l
open_text-IsLive finished unopened s q l =
    start_text-IsLive finished _ (close_thinking-text s.thinking s ∙ q)
      (close_thinking-IsLive finished s.thinking s refl l)

text_delta_to-IsLive :
    (finished : Bool) (sl : Slot) (c : Text) (s : Stream)
    → s.text ≡ sl
    → IsLive true finished s
    → IsLive true finished (text_delta_to sl c s)
unfolding text_delta_to
text_delta_to-IsLive finished unopened c s q l = l
text_delta_to-IsLive finished closed c s q l = l
text_delta_to-IsLive finished (opened i) c s q (v, r, a) =
    emit_delta-IsLive finished i text_delta c s owned (v, r, a)
  where
    owned : owner s.thinking s.text s.tool_slots i ≡ some text_tag
    owned =
        at-free s.thinking thinking_tag i _
          (free_of (λ j. s.text ≡ opened j) s.thinking thinking_tag i clash q)
        ∙ rw (q, same_index i) refl
      where
        clash : (j : ℕ) → s.thinking ≡ opened j → s.text ≡ opened j → ⊥
        clash j e f = some-ne-none (rw (f, same_index j) at (a.thinking_alone j e).0)
          where
            some-ne-none : some text_tag ≡ none → ⊥
            some-ne-none p = cc

pub emit_text_delta-IsLive :
    (finished : Bool) (c : Text) (s : Stream)
    → IsLive true finished s
    → IsLive true finished (emit_text_delta c s)
unfolding emit_text_delta
emit_text_delta-IsLive finished [] s l = l
emit_text_delta-IsLive finished (b ∷ c) s l =
    text_delta_to-IsLive finished _ (b ∷ c) _ refl (open_text-IsLive finished s.text s refl l)
