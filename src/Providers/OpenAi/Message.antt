-- ===== src/Providers/OpenAi/Message.antt =====
-- The whole stream of one response, chunk by chunk.
use claude_code_router.Common.{
  ◌≡◌, refl, sym, subst, ◌∙◌, Text, Bool, true, false, List, [], ◌∷◌, Option, none, some, inl, inr,
  some_inj, Option-cases,
}
use claude_code_router.Json.{ℤ}
use claude_code_router.Providers.OpenAi.Decode.{Chunk, Choice}
use claude_code_router.Providers.OpenAi.{
  finish, content, Stream, initial, emit_thinking_delta, tool_calls, start_message, use_choice,
  count_usage, on_chunk, stop_message,
}
use claude_code_router.Providers.OpenAi.Protocol.{
  View, completes, Runs, nothing, and_then, IsComplete, IsLive,
}
use claude_code_router.Providers.OpenAi.Blocks.{emit_thinking_delta-IsLive}
use claude_code_router.Providers.OpenAi.Tools.{tool_calls-IsLive}
use claude_code_router.Providers.OpenAi.Finish.{
  IsEnded, Outcome, finish-Outcome, content-IsLive, start_message-IsLive,
}

initial-IsLive : (m : Text) → IsLive false false (initial m)
unfolding initial
initial-IsLive m = (
  _,
  nothing,
  record {
    started = refl;
    ended = refl;
    unsent = refl;
    phase = refl;
    next = refl;
    blocks = λ i. refl;
    unused = λ i h. (refl, refl, refl);
    thinking_alone = λ i e. cc;
    text_alone = λ i e. cc;
    distinct = tt;
  },
)

count_usage-IsLive :
    (u : Option (ℤ × ℤ)) (b : Bool) (s : Stream)
    → IsLive b false s
    → IsLive b false (count_usage u s)
unfolding count_usage
count_usage-IsLive none b s l = l
count_usage-IsLive (some (i, o)) b s (v, r, a) = (
  v,
  r,
  record {
    started = a.started;
    ended = a.ended;
    unsent = a.unsent;
    phase = a.phase;
    next = a.next;
    blocks = a.blocks;
    unused = a.unused;
    thinking_alone = a.thinking_alone;
    text_alone = a.text_alone;
    distinct = a.distinct;
  },
)

use_choice-Outcome :
    (m id : Text) (c : Choice) (b : Bool) (s t : Stream)
    → IsLive b false s
    → use_choice m id c s ≡ some t
    → Outcome t
unfolding use_choice
use_choice-Outcome m id c b s t l e = elim (Option-cases (tool_calls c.tool_calls s₂)) [
  | inl n ↦ absurd (none-ne-some (rw (n, use_choice) at e))
  | inr (s₃, q) ↦ subst Outcome (some_inj (rw (q, use_choice) at e)) (
      finish-Outcome c.finish_reason _ _ refl
        (content-IsLive c.content s₃ (tool_calls-IsLive false c.tool_calls s₂ s₃ live q)))
]
  where
    s₁ : Stream
    s₁ = start_message m id s.stream_started s

    s₂ : Stream
    s₂ = emit_thinking_delta c.reasoning (emit_thinking_delta c.reasoning_content s₁)

    live : IsLive true false s₂
    live = emit_thinking_delta-IsLive false _ _ (
        emit_thinking_delta-IsLive false _ _ (
          start_message-IsLive m id s.stream_started s
            (subst (λ x. IsLive x false s) (sym (l.2.started)) l)))

    none-ne-some : none ≡ some t → ⊥
    none-ne-some p = cc

on_chunk-Outcome :
    (m : Text) (k : Chunk) (b : Bool) (s t : Stream)
    → IsLive b false s
    → on_chunk m k s ≡ some t
    → Outcome t
unfolding on_chunk
on_chunk-Outcome m k b s t l = by_choices k.choices
  where
    by_choices :
        (cs : List Choice)
        → (elim cs [
          | [] ↦ some (count_usage k.usage s)
          | c ∷ cs' ↦ use_choice m k.id c (count_usage k.usage s)
        ])
          ≡ some t
        → Outcome t
    by_choices [] e = subst Outcome (some_inj e) (inl (b, count_usage-IsLive k.usage b s l))
    by_choices (c ∷ cs) e =
        use_choice-Outcome m k.id c b (count_usage k.usage s) t (count_usage-IsLive k.usage b s l) e

-- The states that chunks lead to, up to the first that carries a finish reason.
pub data Reaches (m : Text) : Stream → Type 0 where
  begins : Reaches m (initial m)
  takes :
      {s t : Stream}
      → Reaches m s
      → s.stream_ended ≡ false
      → (k : Chunk) → on_chunk m k s ≡ some t
      → Reaches m t

Reaches-Outcome : {m : Text} {s : Stream} → Reaches m s → Outcome s
Reaches-Outcome begins = inl (false, initial-IsLive _)
Reaches-Outcome {m} (takes r q k e) = goes (Reaches-Outcome r) q e
  where
    goes : {s t : Stream} → Outcome s → s.stream_ended ≡ false → on_chunk m k s ≡ some t → Outcome t
    goes (inl (b, l)) q e = on_chunk-Outcome m k b _ _ l e
    goes (inr x) q e = absurd (true-ne-false (sym x.5 ∙ q))
      where
        true-ne-false : true ≡ false → ⊥
        true-ne-false p = cc

-- Whatever chunks an upstream sends up to its first finish reason, the events written so far are the
-- beginning of a message: blocks are numbered in the order in which they start, every delta fits the
-- kind of an open block, and no block is stopped twice.
pub stream-Runs : (m : Text) (s : Stream) → Reaches m s → (v : View) × Runs s.out v
stream-Runs m s r = shown (Reaches-Outcome r)
  where
    shown : Outcome s → (v : View) × Runs s.out v
    shown (inl (b, (v, q, a))) = (v, q)
    shown (inr x) = (x.0, x.1)

-- A chunk that brings nothing to write: the usage chunk, which has no choices, or one whose first choice
-- has no text, no reasoning and no tool call, with or without a finish reason.
abbrev Idle : List Choice → Type 0
Idle [] = Unit
Idle (c ∷ cs) =
    (c.reasoning_content ≡ []) × (c.reasoning ≡ []) × (c.tool_calls ≡ []) × (c.content ≡ [])

abbrev pub IsIdle : Chunk → Type 0
IsIdle k = Idle k.choices

-- The states behind the chunk with the first finish reason, while idle chunks come.
pub data Settles (m : Text) : Stream → Type 0 where
  finishes : {s : Stream} → Reaches m s → s.stream_ended ≡ true → Settles m s
  idles :
      {s t : Stream} → Settles m s → (k : Chunk) → IsIdle k → on_chunk m k s ≡ some t → Settles m t

count_usage-IsEnded : (u : Option (ℤ × ℤ)) (s : Stream) → IsEnded s → IsEnded (count_usage u s)
unfolding count_usage
count_usage-IsEnded none s e = e
count_usage-IsEnded (some n) s e = e

finish-ended : (reason : Option Text) (b : Bool) (s : Stream) → b ≡ true → finish reason b s ≡ s
unfolding finish
finish-ended none b s q = refl
finish-ended (some reason) true s q = refl
finish-ended (some reason) false s q = absurd (false-ne-true q)
  where
    false-ne-true : false ≡ true → ⊥
    false-ne-true p = cc

idle-IsEnded :
    (m : Text) (k : Chunk) (s t : Stream)
    → IsIdle k
    → IsEnded s
    → on_chunk m k s ≡ some t
    → IsEnded t
unfolding on_chunk use_choice start_message emit_thinking_delta tool_calls content
idle-IsEnded m k s t idle h e = by_choices k.choices idle e
  where
    s' : Stream
    s' = count_usage k.usage s

    h' : IsEnded s'
    h' = count_usage-IsEnded k.usage s h

    by_choices :
        (cs : List Choice)
        → Idle cs
        → (elim cs [ [] ↦ some s' | c ∷ rest ↦ use_choice m k.id c s' ]) ≡ some t
        → IsEnded t
    by_choices [] i q = subst IsEnded (some_inj q) h'
    by_choices (c ∷ rest) (i, j, l, n) q =
        subst IsEnded
          (sym (finish-ended c.finish_reason s'.stream_ended s' h'.5)
            ∙ some_inj (rw (h'.6, i, j, l, n, use_choice) at q))
          h'

Settles-IsEnded : {m : Text} {s : Stream} → Settles m s → IsEnded s
Settles-IsEnded (finishes r q) = done (Reaches-Outcome r) q
  where
    true-ne-false : true ≡ false → ⊥
    true-ne-false p = cc

    done : {s : Stream} → Outcome s → s.stream_ended ≡ true → IsEnded s
    done (inl (b, (v, p, a))) q = absurd (true-ne-false (sym q ∙ a.ended))
    done (inr e) q = e
Settles-IsEnded {m} (idles h k i e) = idle-IsEnded m k _ _ i (Settles-IsEnded h) e

-- When a chunk has carried the first finish reason, and the chunks after it have no choice, as the
-- usage chunk, or a first choice without text, reasoning and tool calls, the message_stop that the
-- closing sentinel makes completes the message: it was started, its blocks were all stopped, each once, before message_delta, and nothing
-- follows message_stop.
pub finished_stream-IsComplete :
    (m : Text) (s : Stream) → Settles m s → IsComplete (stop_message s.message_stop_sent s).out
unfolding stop_message
finished_stream-IsComplete m s h =
    let (v, p, f, b, u, e, y) = Settles-IsEnded h in rw u (_, and_then p (completes f), refl, b)
