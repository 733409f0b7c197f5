-- ===== src/Providers/OpenAi/Finish.antt =====
-- The end of a message: every open block is stopped before message_delta.
use claude_code_router.Providers.OpenAi.TextBlocks.{emit_text_delta-IsLive}
use claude_code_router.Common.{
  ◌⊎◌, ℕ, ◌≡◌, refl, sym, ◌∙◌, Text, Bool, true, false, [], ◌∷◌, Option, none, some, inl, inr,
}
use claude_code_router.Providers.OpenAi.{
  ThinkFilter, Stream, content, flush_partial, end_message, finish, start_message,
}
use claude_code_router.Providers.OpenAi.Protocol.{
  ended, View, starts, pings, ends, Runs, and_then, IsLive,
}
use claude_code_router.Providers.OpenAi.Blocks.{emit_thinking_delta-IsLive}
use claude_code_router.Providers.OpenAi.Ending.{stop_blocks-Shows}

-- The message ended with all blocks stopped, and message_stop is still to come.
abbrev pub IsEnded : Stream → Type 0
IsEnded s =
    (v : View) × Runs s.out v
    × (v.phase ≡ ended)
    × ((i : ℕ) → v.blocks i ≡ none)
    × (s.message_stop_sent ≡ false)
    × (s.stream_ended ≡ true)
    × (s.stream_started ≡ true)

filter-IsLive :
    (f : ThinkFilter) (begun finished : Bool) (s : Stream)
    → IsLive begun finished s
    → IsLive begun finished (record s { filter = f })
filter-IsLive f begun finished s (v, r, a) = (
  v,
  r,
  record {
    started = a.started;
    ended = a.ended;
    unsent = a.unsent;
    phase = a.phase;
    next = a.next;
    blocks = a.blocks;
    unused = a.unused;
    thinking_alone = a.thinking_alone;
    text_alone = a.text_alone;
    distinct = a.distinct;
  },
)

flush_partial-IsLive :
    (m : Bool) (p : Text) (s : Stream) → IsLive true true s → IsLive true true (flush_partial m p s)
unfolding flush_partial
flush_partial-IsLive m [] s l = l
flush_partial-IsLive true (b ∷ p) s l =
    filter-IsLive _ true true _ (emit_thinking_delta-IsLive true (b ∷ p) s l)
flush_partial-IsLive false (b ∷ p) s l =
    filter-IsLive _ true true _ (emit_text_delta-IsLive true (b ∷ p) s l)

ending-IsLive :
    (s : Stream) → IsLive true false s → IsLive true true (record s { stream_ended = true })
ending-IsLive s (v, r, a) = (
  v,
  r,
  record {
    started = a.started;
    ended = refl;
    unsent = a.unsent;
    phase = a.phase;
    next = a.next;
    blocks = a.blocks;
    unused = a.unused;
    thinking_alone = a.thinking_alone;
    text_alone = a.text_alone;
    distinct = a.distinct;
  },
)

end_message-IsEnded :
    (reason : Text) (s : Stream) → IsLive true false s → IsEnded (end_message reason s)
unfolding end_message
end_message-IsEnded reason s l =
    let (v, r, p, b, u, x, y) =
      stop_blocks-Shows _
        (flush_partial-IsLive s.filter.in_think s.filter.partial _ (ending-IsLive s l)) in
    (_, and_then r (ends _ _ p b), refl, b, u, x, y)

-- A stream that goes on, or one whose message has ended.
abbrev pub Outcome : Stream → Type 0
Outcome s = ((b : Bool) × IsLive b false s) ⊎ IsEnded s

pub finish-Outcome :
    (reason : Option Text) (b : Bool) (s : Stream)
    → s.stream_ended ≡ b
    → IsLive true false s
    → Outcome (finish reason b s)
unfolding finish
finish-Outcome none b s q l = inl (true, l)
finish-Outcome (some reason) true s q (v, r, a) = absurd (true-ne-false (sym q ∙ a.ended))
  where
    true-ne-false : true ≡ false → ⊥
    true-ne-false p = cc
finish-Outcome (some reason) false s q l = inr (end_message-IsEnded reason s l)

pub content-IsLive : (c : Text) (s : Stream) → IsLive true false s → IsLive true false (content c s)
unfolding content
content-IsLive [] s l = l
content-IsLive (b ∷ c) s l =
    emit_text_delta-IsLive false _ _
      (emit_thinking_delta-IsLive false _ _ (filter-IsLive _ true false s l))

pub start_message-IsLive :
    (m id : Text) (b : Bool) (s : Stream)
    → IsLive b false s
    → IsLive true false (start_message m id b s)
unfolding start_message
start_message-IsLive m id true s l = l
start_message-IsLive m id false s (v, r, a) = (
  _,
  and_then (and_then r (starts _ _ a.phase)) (pings refl),
  record {
    started = refl;
    ended = a.ended;
    unsent = a.unsent;
    phase = refl;
    next = a.next;
    blocks = a.blocks;
    unused = a.unused;
    thinking_alone = a.thinking_alone;
    text_alone = a.text_alone;
    distinct = a.distinct;
  },
)
