-- ===== src/Providers/OpenAi/Blocks.antt =====
-- Every step of the stream before the end of the message keeps its output the beginning of one.
use claude_code_router.Common.{
  [], ◌∷◌, arith, false, ◌≤◌, ◌+◌, subst, ℕ, ◌≡◌, refl, sym, ◌∙◌, Text, Bool, true, ◌==◌, Option,
  none, some, Bool-cases, ==_iff, inl, inr,
}
use claude_code_router.Providers.OpenAi.{
  thinking_block, thinking_delta, emit_thinking_delta, think_delta, close_thinking_block,
  open_thinking, DeltaKind, content_block_delta, Slot, unopened, opened, closed, Stream, emit,
  close_thinking,
}
use claude_code_router.Providers.OpenAi.Protocol.{
  tool_owner, opens, Tag, writes, stops, and_then, IsLive, at, owner, thinking_tag, text_tag,
  tag_of_delta, put,
}

-- The equation of an index with itself.
pub same_index : (i : ℕ) → (i == i) ≡ true
same_index i = (==_iff i i).1 refl

pub at-free :
    (sl : Slot) (t : Tag) (i : ℕ) (o : Option Tag) → at sl t i none ≡ none → at sl t i o ≡ o
at-free unopened t i o h = refl
at-free (opened j) t i o h = elim (Bool-cases (j == i)) [
  | inl y ↦ absurd (some-ne-none (rw y at h))
  | inr n ↦ rw n refl
]
  where
    some-ne-none : some t ≡ none → ⊥
    some-ne-none q = cc
at-free closed t i o h = refl

-- A slot does not hold an index of which something holds that holds of no index that it has.
pub free_of :
    (P : ℕ → Type 0) (sl : Slot) (t : Tag) (i : ℕ)
    → ((j : ℕ) → sl ≡ opened j → P j → ⊥)
    → P i
    → at sl t i none ≡ none
free_of P unopened t i h p = refl
free_of P (opened j) t i h p = elim (Bool-cases (j == i)) [
  | inl y ↦ absurd (h j refl (subst P (sym ((==_iff j i).0 y)) p))
  | inr n ↦ rw n refl
]
free_of P closed t i h p = refl

pub opened_inj : {i j : ℕ} → opened i ≡ opened j → i ≡ j
opened_inj e = cc

pub later_index : (n i : ℕ) → n + 1 ≤ i → (n == i) ≡ false
later_index n i h = elim (Bool-cases (n == i)) [
  | inl y ↦ absurd (omega (arith, (==_iff n i).0 y))
  | inr q ↦ q
]

pub emit_delta-IsLive :
    (finished : Bool) (i : ℕ) (d : DeltaKind) (t : Text) (s : Stream)
    → owner s.thinking s.text s.tool_slots i ≡ some (tag_of_delta d)
    → IsLive true finished s
    → IsLive true finished (emit (content_block_delta i d t) s)
emit_delta-IsLive finished i d t s o (v, r, a) = (
  v,
  and_then r (writes i d t a.phase (a.blocks i ∙ o)),
  record {
    started = a.started;
    ended = a.ended;
    unsent = a.unsent;
    phase = a.phase;
    next = a.next;
    blocks = a.blocks;
    unused = a.unused;
    thinking_alone = a.thinking_alone;
    text_alone = a.text_alone;
    distinct = a.distinct;
  },
)

pub close_thinking-IsLive :
    (finished : Bool) (sl : Slot) (s : Stream)
    → s.thinking ≡ sl
    → IsLive true finished s
    → IsLive true finished (close_thinking sl s)
unfolding close_thinking
close_thinking-IsLive finished unopened s q l = l
close_thinking-IsLive finished closed s q l = l
close_thinking-IsLive finished (opened i) s q (v, r, a) = (
  _,
  and_then r (stops i thinking_tag a.phase (a.blocks i ∙ owned)),
  record {
    started = a.started;
    ended = a.ended;
    unsent = a.unsent;
    phase = a.phase;
    next = a.next;
    blocks = opened_now;
    unused = λ j h. (refl, (a.unused j h).1, (a.unused j h).2);
    thinking_alone = λ j e. cc;
    text_alone = a.text_alone;
    distinct = a.distinct;
  },
)
  where
    owned : owner s.thinking s.text s.tool_slots i ≡ some thinking_tag
    owned = rw (q, same_index i) refl

    opened_now : (j : ℕ) → put i none v.blocks j ≡ owner closed s.text s.tool_slots j
    opened_now j = elim (Bool-cases (i == j)) [
      | inl y ↦ rw y (
          rw (← (==_iff i j).0 y)
            (sym (at-free s.text text_tag i _ (a.thinking_alone i q).0 ∙ (a.thinking_alone i q).1)))
      | inr n ↦ rw n (a.blocks j ∙ rw (q, n) refl)
    ]

open_thinking-IsLive :
    (finished : Bool) (sl : Slot) (s : Stream)
    → s.thinking ≡ sl
    → IsLive true finished s
    → IsLive true finished (open_thinking sl s)
unfolding open_thinking
open_thinking-IsLive finished (opened i) s q l = l
open_thinking-IsLive finished closed s q l = l
open_thinking-IsLive finished unopened s q (v, r, a) = (
  _,
  and_then r (opens n thinking_block a.phase a.next),
  record {
    started = a.started;
    ended = a.ended;
    unsent = a.unsent;
    phase = a.phase;
    next = refl;
    blocks = opened_now;
    unused = λ j h. (
      rw (later_index n j h) refl,
      (a.unused j (omega (arith, h))).1,
      (a.unused j (omega (arith, h))).2,
    );
    thinking_alone = λ j e.
        subst (λ x. (at s.text text_tag x none ≡ none) × (tool_owner s.tool_slots x ≡ none))
          (opened_inj e) ((a.unused n (omega arith)).1, (a.unused n (omega arith)).2);
    text_alone = a.text_alone;
    distinct = a.distinct;
  },
)
  where
    n : ℕ
    n = s.next_block_idx

    opened_now :
        (j : ℕ) → put n (some thinking_tag) v.blocks j ≡ owner (opened n) s.text s.tool_slots j
    opened_now j = elim (Bool-cases (n == j)) [
      | inl y ↦ rw y refl
      | inr m ↦ rw m (a.blocks j ∙ rw q refl)
    ]

think_delta-IsLive :
    (finished : Bool) (sl : Slot) (c : Text) (s : Stream)
    → s.thinking ≡ sl
    → IsLive true finished s
    → IsLive true finished (think_delta sl c s)
unfolding think_delta
think_delta-IsLive finished unopened c s q l = l
think_delta-IsLive finished closed c s q l = l
think_delta-IsLive finished (opened i) c s q l =
    emit_delta-IsLive finished i thinking_delta c s (rw (q, same_index i) refl) l

pub emit_thinking_delta-IsLive :
    (finished : Bool) (c : Text) (s : Stream)
    → IsLive true finished s
    → IsLive true finished (emit_thinking_delta c s)
unfolding emit_thinking_delta
emit_thinking_delta-IsLive finished [] s l = l
emit_thinking_delta-IsLive finished (b ∷ c) s l =
    think_delta-IsLive finished _ (b ∷ c) _ refl (open_thinking-IsLive finished s.thinking s refl l)

pub close_thinking_block-IsLive :
    (finished : Bool) (s : Stream)
    → IsLive true finished s
    → IsLive true finished (close_thinking_block s)
unfolding close_thinking_block
close_thinking_block-IsLive finished s l = close_thinking-IsLive finished s.thinking s refl l
