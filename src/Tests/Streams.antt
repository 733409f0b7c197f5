-- ===== src/Tests/Streams.antt =====
-- The converter of the OpenAI surface, and the hub of the live log.
use claude_code_router.Common.{
  arith, ◌<◌, false, if◌then◌else◌, ◌==◌, ℕ, ◌≡◌, ◌≤◌, refl, Text, codes, Bool, true, List, [], ◌∷◌,
  ◌++◌, Option, none, some, length,
}
use claude_code_router.Json.{Json}
use claude_code_router.Router.OpenAiChunks.{Emitted}
use claude_code_router.Router.Converter.{new_converter, write}
use claude_code_router.Router.Converter.Chunking.{
  then_write, write-append, write_all, write_all_of_same_bytes,
}
use claude_code_router.Router.Converter.Events.{IsNumbered}
use claude_code_router.Router.Converter.Role.{roles, collecting, write-roles}
use claude_code_router.Middleware.Hub.{
  Phase, waiting, unlocked, Hub, new_hub, subscribe, unsubscribe, publish,
}
use claude_code_router.Middleware.Hub.Safety.{
  System, Reach, here, next, subscribes, leaves, reachable_sound,
}
use claude_code_router.Middleware.Hub.Phases.{set}

-- A writer that never fails, and a decoder that knows no document.
abbrev never_fails : Emitted → List Emitted → Bool
never_fails e es = true

abbrev no_document : Text → Option Json
no_document s = none

abbrev line : Text
line = codes "event: message_start" ++ 10 ∷ codes "data: {}" ++ 10 ∷ []

write-append_example :
    write (collecting never_fails) no_document (line ++ 10 ∷ []) new_converter []
    ≡ then_write
        (collecting never_fails)
        no_document
        (10 ∷ [])
        (write (collecting never_fails) no_document line new_converter [])
write-append_example =
    write-append (collecting never_fails) no_document line (10 ∷ []) new_converter []

write_all_of_same_bytes_example :
    write_all (collecting never_fails) no_document (line ∷ (10 ∷ []) ∷ []) new_converter []
    ≡ write_all
        (collecting never_fails)
        no_document
        (codes "event:" ∷ (codes " message_start" ++ 10 ∷ codes "data: {}" ++ 10 ∷ 10 ∷ []) ∷ [])
        new_converter
        []
write_all_of_same_bytes_example =
    write_all_of_same_bytes (collecting never_fails) no_document line (codes "event:")
      ((10 ∷ []) ∷ []) ((codes " message_start" ++ 10 ∷ codes "data: {}" ++ 10 ∷ 10 ∷ []) ∷ [])
      new_converter [] refl

new_converter-IsNumbered : IsNumbered new_converter.state
unfolding new_converter
new_converter-IsNumbered i t e = absurd (none-ne-some e)
  where
    none-ne-some : none ≡ some t → ⊥
    none-ne-some q = cc

write-roles_example : roles (write (collecting never_fails) no_document line new_converter []).1 ≤ 1
write-roles_example = write-roles never_fails no_document line

abbrev one_subscriber : Hub ℕ
one_subscriber = (subscribe new_hub).0

-- Two channels, the first of which has been taken out of the hub and is not closed yet.
abbrev leaving_hub : Hub ℕ
leaving_hub = record { subs = 1 ∷ []; buffer = λ c. []; closed = λ c. false; fresh = 2 }

abbrev two_subscribers : Hub ℕ
two_subscribers = (subscribe one_subscriber).0

takes_out : unsubscribe 0 waiting two_subscribers ≡ some (leaving_hub, unlocked)
unfolding unsubscribe subscribe new_hub
takes_out = refl

made_two : 0 < two_subscribers.fresh
unfolding subscribe new_hub
made_two = omega arith

abbrev between : System ℕ
between = record { hub = leaving_hub; at = set 0 unlocked (λ c. waiting) }

between-Reach : Reach 64 between
between-Reach =
    next (next (next here subscribes) subscribes) (leaves 0 leaving_hub unlocked made_two takes_out)

reachable_sound_example :
    ((g : Hub ℕ) × (publish 64 7 leaving_hub ≡ some g))
    × ((ch : ℕ)
        → ch < 2
        → (g : Hub ℕ) × (p : Phase) × (unsubscribe ch (set 0 unlocked (λ c. waiting) ch) leaving_hub
            ≡ some (g, p)))
    × ((c : ℕ) → length (leaving_hub.buffer c) ≤ 64)
reachable_sound_example = reachable_sound 64 between 7 between-Reach

abbrev after_publish : Hub ℕ
after_publish = record one_subscriber { buffer = λ c. if c == 0 then 7 ∷ [] else [] }

published : publish 64 7 one_subscriber ≡ some after_publish
unfolding publish subscribe new_hub
published = refl
