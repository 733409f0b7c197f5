-- ===== src/Providers/OpenAi/Tools.antt =====
-- The tool calls of a chunk: a block for each index of the upstream's.
use claude_code_router.Common.{
  Option-cases, subst, Bool, ℕ, ◌+◌, ◌≡◌, ◌<◌, refl, sym, ◌∙◌, Text, true, false, ◌==◌,
  if◌then◌else◌, List, [], ◌∷◌, Option, none, some, arith, Bool-cases, ==_iff, inl, inr, length,
  get_or, some_inj,
}
use claude_code_router.Json.{ℤ, pos, negsuc}
use claude_code_router.Providers.OpenAi.Decode.{ToolCall}
use claude_code_router.Providers.OpenAi.{
  unopened, closed, close_thinking, tool_call_at, tool_calls, close_thinking_block, tool_at,
  tool_use_block, input_json_delta, content_block_start, Slot, opened, Stream, emit, grow, set_slot,
  arguments_to,
}
use claude_code_router.Providers.OpenAi.Protocol.{
  Tag, opens, and_then, IsLive, at, tool_owner, owner, Free, thinking_tag, text_tag, tool_tag, put,
}
use claude_code_router.Providers.OpenAi.Blocks.{
  close_thinking_block-IsLive, at-free, free_of, later_index, same_index, emit_delta-IsLive,
}
use claude_code_router.Providers.OpenAi.Slots.{
  grow-owner, grow-Distinct, grow-length, set_slot-owner, set_slot-Distinct, slot-owner,
}

close_thinking_block-slots : (s : Stream) → (close_thinking_block s).tool_slots ≡ s.tool_slots
unfolding close_thinking_block close_thinking
close_thinking_block-slots s = by_slot s.thinking
  where
    by_slot : (sl : Slot) → (close_thinking sl s).tool_slots ≡ s.tool_slots
    by_slot unopened = refl
    by_slot (opened i) = refl
    by_slot closed = refl

module _ (finished : Bool) where
  grown-IsLive :
      (i : ℕ) (s : Stream)
      → IsLive true finished s
      → IsLive true finished (record s { tool_slots = grow i s.tool_slots })
  grown-IsLive i s (v, r, a) = (
    v,
    r,
    record {
      started = a.started;
      ended = a.ended;
      unsent = a.unsent;
      phase = a.phase;
      next = a.next;
      blocks = λ j. rw (grow-owner i s.tool_slots j) (a.blocks j);
      unused = λ j h.
          ((a.unused j h).0, (a.unused j h).1, grow-owner i s.tool_slots j ∙ (a.unused j h).2);
      thinking_alone =
          λ j e. ((a.thinking_alone j e).0, grow-owner i s.tool_slots j ∙ (a.thinking_alone j e).1);
      text_alone = λ j e. grow-owner i s.tool_slots j ∙ a.text_alone j e;
      distinct = grow-Distinct i s.tool_slots a.distinct;
    },
  )

  -- The start of a block for a slot that has none.
  start_tool-IsLive :
      (i : ℕ) (id name : Text) (s : Stream)
      → i < length s.tool_slots
      → get_or s.tool_slots i none ≡ none
      → IsLive true finished s
      → IsLive true finished (
          emit (content_block_start s.next_block_idx (tool_use_block id name)) (record s {
            tool_slots = set_slot i s.next_block_idx s.tool_slots;
            next_block_idx = s.next_block_idx + 1;
          }))
  start_tool-IsLive i id name s h e (v, r, a) = (
    _,
    and_then r (opens n (tool_use_block id name) a.phase a.next),
    record {
      started = a.started;
      ended = a.ended;
      unsent = a.unsent;
      phase = a.phase;
      next = refl;
      blocks = opened_now;
      unused = λ j m. (
        (a.unused j (omega (arith, m))).0,
        (a.unused j (omega (arith, m))).1,
        slots j ∙ rw (later_index n j m) (a.unused j (omega (arith, m))).2,
      );
      thinking_alone = λ j q. (
        (a.thinking_alone j q).0,
        slots j ∙ rw (apart s.thinking thinking_tag j free.0 q) (a.thinking_alone j q).1,
      );
      text_alone = λ j q. slots j ∙ rw (apart s.text text_tag j free.1 q) (a.text_alone j q);
      distinct = set_slot-Distinct i n s.tool_slots h e free.2 a.distinct;
    },
  )
    where
      n : ℕ
      n = s.next_block_idx

      free : Free s.thinking s.text s.tool_slots n
      free = a.unused n (omega arith)

      slots :
          (j : ℕ)
          → tool_owner (set_slot i n s.tool_slots) j
            ≡ (if n == j then some tool_tag else tool_owner s.tool_slots j)
      slots j = set_slot-owner i n s.tool_slots j h e

      apart :
          (sl : Slot) (t : Tag) (j : ℕ) → at sl t n none ≡ none → sl ≡ opened j → (n == j) ≡ false
      apart sl t j f q = elim (Bool-cases (n == j)) [
        | inl y ↦ absurd (some-ne-none (rw (q, ← (==_iff n j).0 y, same_index n) at f))
        | inr m ↦ m
      ]
        where
          some-ne-none : some t ≡ none → ⊥
          some-ne-none p = cc

      opened_now :
          (j : ℕ)
          → put n (some tool_tag) v.blocks j ≡ owner s.thinking s.text (set_slot i n s.tool_slots) j
      opened_now j = rw (slots j) (elim (Bool-cases (n == j)) [
        | inl y ↦ rw y (
            rw (← (==_iff n j).0 y) (
              sym
                (at-free s.thinking thinking_tag n _ free.0 ∙ at-free s.text text_tag n _ free.1)))
        | inr m ↦ rw m (a.blocks j)
      ])

  arguments_to-IsLive :
      (b : ℕ) (args : Text) (s : Stream)
      → tool_owner s.tool_slots b ≡ some tool_tag
      → IsLive true finished s
      → IsLive true finished (arguments_to b args s)
  unfolding arguments_to
  arguments_to-IsLive b [] s o l = l
  arguments_to-IsLive b (c ∷ args) s o (v, r, a) =
      emit_delta-IsLive finished b input_json_delta (c ∷ args) s owned (v, r, a)
    where
      some-ne-none : some tool_tag ≡ none → ⊥
      some-ne-none p = cc

      owned : owner s.thinking s.text s.tool_slots b ≡ some tool_tag
      owned =
          at-free s.thinking thinking_tag b _ (
            free_of (λ j. tool_owner s.tool_slots j ≡ some tool_tag) s.thinking thinking_tag b
              (λ j e f. some-ne-none (sym f ∙ (a.thinking_alone j e).1)) o)
          ∙ at-free s.text text_tag b _ (
              free_of (λ j. tool_owner s.tool_slots j ≡ some tool_tag) s.text text_tag b
                (λ j e f. some-ne-none (sym f ∙ a.text_alone j e)) o)
          ∙ o

  tool_at-IsLive :
      (i : ℕ) (tc : ToolCall) (o : Option ℕ) (s : Stream)
      → i < length s.tool_slots
      → get_or s.tool_slots i none ≡ o
      → IsLive true finished s
      → IsLive true finished (tool_at i tc o s)
  unfolding tool_at
  tool_at-IsLive i tc (some b) s h e l =
      arguments_to-IsLive b tc.arguments s (slot-owner i b s.tool_slots e) l
  tool_at-IsLive i tc none s h e l =
      arguments_to-IsLive s'.next_block_idx tc.arguments _ owned (
        start_tool-IsLive i tc.id tc.name s' bound empty (close_thinking_block-IsLive finished s l))
    where
      s' : Stream
      s' = close_thinking_block s

      bound : i < length s'.tool_slots
      bound = rw (close_thinking_block-slots s) h

      empty : get_or s'.tool_slots i none ≡ none
      empty = rw (close_thinking_block-slots s) e

      owned :
          tool_owner (set_slot i s'.next_block_idx s'.tool_slots) s'.next_block_idx ≡ some tool_tag
      owned =
          set_slot-owner i s'.next_block_idx s'.tool_slots s'.next_block_idx bound empty
          ∙ rw (same_index s'.next_block_idx) refl

  tool_call_at-IsLive :
      (tc : ToolCall) (s t : Stream)
      → IsLive true finished s
      → tool_call_at tc.index tc s ≡ some t
      → IsLive true finished t
  unfolding tool_call_at
  tool_call_at-IsLive tc s t l = indexed tc.index
    where
      indexed : (i : ℤ) → tool_call_at i tc s ≡ some t → IsLive true finished t
      indexed (negsuc n) e = absurd (none-ne-some e)
        where
          none-ne-some : none ≡ some t → ⊥
          none-ne-some p = cc
      indexed (pos i) e =
          subst (IsLive true finished) (some_inj e)
            (tool_at-IsLive i tc _ _ (grow-length i s.tool_slots) refl (grown-IsLive i s l))

  pub tool_calls-IsLive :
      (tcs : List ToolCall) (s t : Stream)
      → IsLive true finished s
      → tool_calls tcs s ≡ some t
      → IsLive true finished t
  unfolding tool_calls
  tool_calls-IsLive [] s t l e = subst (IsLive true finished) (some_inj e) l
  tool_calls-IsLive (tc ∷ tcs) s t l e = elim (Option-cases (tool_call_at tc.index tc s)) [
    | inl n ↦ absurd (none-ne-some (rw (n, tool_calls) at e))
    | inr (s', q) ↦
        tool_calls-IsLive tcs s' t (tool_call_at-IsLive tc s s' l q) (rw (q, tool_calls) at e)
  ]
    where
      none-ne-some : none ≡ some t → ⊥
      none-ne-some p = cc
