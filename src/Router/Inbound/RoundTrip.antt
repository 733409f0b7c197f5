-- ===== src/Router/Inbound/RoundTrip.antt =====
-- The way of a conversation from an OpenAI client to an OpenAI upstream: OpenAIToAnthropic, then
-- convertToOpenAI.
use mathlib.Core.Path.{ap₂}
use mathlib.Core.List.{append_assoc, append-nil, map-append}
use claude_code_router.Common.{
  All, ℕ, subst, sym, ◌∙◌, ap, map, ◌++◌, text_eq, ◌≡◌, refl, Text, codes, List, [], ◌∷◌, Option,
  none, some,
}
use claude_code_router.Json.{Json, str}
use claude_code_router.Providers.Outbound.{
  convert_to_openai, convert_messages, system_message, message, convert_message, OutMessage,
}
use claude_code_router.Router.Inbound.{
  request_with, request_with, openai_to_anthropic, convert, new_conversion, add_messages, say_calls,
  add_message, flush_list, say, Conversion, flush_tool_results,
}
use claude_code_router.Router.OpenAiRequest.{in_request_of, InRequest}
use claude_code_router.Providers.Request.{AnthropicRequest, ContentBlock}
use claude_code_router.Providers.Request.{system_text}
use claude_code_router.Router.Inbound.Wire.{
  wire, in_call, sent, sent-append, Result, result_block, tool_message, sent-results, IsGiven,
  given, IsPlain, convert_message-says, calls_of-wire, calls_of-says, convert_message-calls, says,
  calls, answers,
}

-- The conversion so far: the messages and the results that wait make the conversation.
record IsAt (system : Option Json) (ms : List OutMessage) (c : Conversion) : Type 0 where
  results : List Result
  waiting : c.pending ≡ map result_block results
  so_far : sent c.messages ++ map tool_message results ≡ ms
  system_kept : c.system ≡ system

abbrev IsFlushed : Option Json → List OutMessage → Conversion → Type 0
IsFlushed system ms c = (c.pending ≡ []) × (sent c.messages ≡ ms) × (c.system ≡ system)

flush-IsFlushed :
    (system : Option Json) (ms : List OutMessage) (c : Conversion)
    → IsAt system ms c
    → IsFlushed system ms (flush_tool_results c)
unfolding flush_tool_results
flush-IsFlushed system ms c h = flushed h.results h.waiting h.so_far
  where
    flushed :
        (rs : List Result)
        → c.pending ≡ map result_block rs
        → sent c.messages ++ map tool_message rs ≡ ms
        → IsFlushed system ms (flush_list c.pending c)
    flushed [] e f =
        subst (λ p. IsFlushed system ms (flush_list p c)) (sym e)
          (e, sym (append-nil (sent c.messages)) ∙ f, h.system_kept)
    flushed (r ∷ rs) e f =
        subst (λ p. IsFlushed system ms (flush_list p c)) (sym e)
          (refl, sent-append c.messages _ ∙ rw (sent-results r rs) f, h.system_kept)

say-IsAt :
    (system : Option Json) (ms : List OutMessage) (c : Conversion) (role : Text)
    (content : List ContentBlock) (m : OutMessage)
    → IsFlushed system ms c
    → convert_message (record { role = role; content = content }) ≡ m ∷ []
    → IsAt system (ms ++ m ∷ []) (say role content c)
unfolding sent
say-IsAt system ms c role content m (p, s, k) e = record {
  results = [];
  waiting = p;
  so_far = append-nil _ ∙ sent-append c.messages _ ∙ ap₂ ◌++◌ s (rw e refl);
  system_kept = k;
}

-- Every message of the conversation is added to what is there.
add_message-IsAt :
    (system : Option Json) (ms : List OutMessage) (m : OutMessage) (c : Conversion)
    → IsPlain m
    → IsAt system ms c
    → IsAt system (ms ++ m ∷ []) (add_message (wire m) c)
unfolding add_message wire text_eq say_calls
add_message-IsAt system ms m c (answers id s) h = record {
  results = h.results ++ (id, s) ∷ [];
  waiting = rw (h.waiting, map-append result_block h.results ((id, s) ∷ [])) refl;
  so_far =
      rw (map-append tool_message h.results ((id, s) ∷ []))
        (sym (append_assoc (sent c.messages) (map tool_message h.results) _) ∙ rw h.so_far refl);
  system_kept = h.system_kept;
}
add_message-IsAt system ms m c (says role b s n o) h =
    rw (n, o)
      (subst
        (λ k.
          IsAt system (ms ++ message role (some (b ∷ s)) ∷ [])
            (say_calls (wire (message role (some (b ∷ s)))) k (flush_tool_results c)))
        (sym (calls_of-says role (some (b ∷ s))))
        (say-IsAt system ms (flush_tool_results c) role _ _ (flush-IsFlushed system ms c h)
          (convert_message-says role b s)))
add_message-IsAt system ms m c (calls text t ts g) h =
    subst (λ k. IsAt system (ms ++ m ∷ []) (say_calls (wire m) k (flush_tool_results c)))
      (sym (calls_of-wire (given text) t ts)) (said text g)
  where
    said :
        (content : List ℕ)
        → All IsGiven (t ∷ ts)
        → IsAt system
            (ms
              ++ record {
                role = codes "assistant";
                content = given content;
                tool_call_id = [];
                tool_calls = t ∷ ts;
              }
                ∷ [])
            (say_calls
              (wire (record {
                role = codes "assistant";
                content = given content;
                tool_call_id = [];
                tool_calls = t ∷ ts;
              }))
              (some (map in_call (t ∷ ts)))
              (flush_tool_results c))
    said [] g' =
        say-IsAt system ms (flush_tool_results c) (codes "assistant") _ _
          (flush-IsFlushed system ms c h) (convert_message-calls [] t ts g')
    said (b ∷ s) g' =
        say-IsAt system ms (flush_tool_results c) (codes "assistant") _ _
          (flush-IsFlushed system ms c h) (convert_message-calls (b ∷ s) t ts g')

add_messages-IsAt :
    (system : Option Json) (ms ns : List OutMessage) (c : Conversion)
    → All IsPlain ns
    → IsAt system ms c
    → IsAt system (ms ++ ns) (add_messages (map wire ns) c)
unfolding add_messages
add_messages-IsAt system ms [] c p h = subst (λ l. IsAt system l c) (sym (append-nil ms)) h
add_messages-IsAt system ms (n ∷ ns) c p h =
    subst (λ l. IsAt system l (add_messages (map wire ns) (add_message (wire n) c)))
      (append_assoc ms (n ∷ []) ns)
      (add_messages-IsAt system (ms ++ n ∷ []) ns (add_message (wire n) c) p.1
        (add_message-IsAt system ms n c p.0 h))

-- A conversation of plain messages, behind a system message where `system` is not empty.
abbrev pub conversation : Text → List OutMessage → List OutMessage
conversation system ms = system_message system ++ ms

system_document : Text → Option Json
system_document [] = none
system_document (b ∷ s) = some (str (b ∷ s))

start-IsAt :
    (system : Option Json)
    → IsAt system [] (record { system = system; messages = []; pending = [] })
unfolding sent
start-IsAt system = record { results = []; waiting = refl; so_far = refl; system_kept = refl }

system-IsAt :
    (system : Text) (ms : List OutMessage)
    → All IsPlain ms
    → IsAt
        (system_document system)
        ms
        (add_messages (map wire (conversation system ms)) new_conversion)
unfolding add_messages new_conversion add_message wire text_eq system_document
system-IsAt [] ms p = add_messages-IsAt none [] ms _ p (start-IsAt none)
system-IsAt (b ∷ s) ms p =
    add_messages-IsAt (some (str (b ∷ s))) [] ms _ p (start-IsAt (some (str (b ∷ s))))

system_sent :
    (raw : Json → Text) (system : Text)
    → system_message (system_text raw (system_document system)) ≡ system_message system
unfolding system_text system_document
system_sent raw [] = refl
system_sent raw (b ∷ s) = refl

convert-round_trip :
    (raw : Json → Text) (system : Text) (ms : List OutMessage)
    → All IsPlain ms
    → convert_messages
        (system_text raw (convert (map wire (conversation system ms))).system)
        (convert (map wire (conversation system ms))).messages
      ≡ conversation system ms
unfolding convert_messages convert sent
convert-round_trip raw system ms p =
    let (w, s, k) = flush-IsFlushed (system_document system) ms _ (system-IsAt system ms p) in
    ap₂ ◌++◌ (ap (λ o. system_message (system_text raw o)) k ∙ system_sent raw system) s

-- An OpenAI client's conversation of plain messages, with or without a system message before it,
-- reaches an OpenAI upstream message for message: the body converts, and what the upstream is sent are
-- the client's roles, texts, tool calls and tool results in the client's order.
pub chat-round_trip :
    (decode : Text → Option Json) (raw : Json → Text) (body model_id system : Text) (v : Json)
    (r : InRequest) (ms : List OutMessage)
    → decode body ≡ some v
    → in_request_of v ≡ some r
    → r.messages ≡ map wire (conversation system ms)
    → All IsPlain ms
    → (req : AnthropicRequest) × (openai_to_anthropic decode body ≡ some req)
      × ((convert_to_openai raw req model_id).messages ≡ conversation system ms)
unfolding openai_to_anthropic convert_to_openai
chat-round_trip decode raw body model_id system v r ms d e m p = (
  request_with r (convert r.messages),
  rw (d, e) refl,
  ap (λ l. convert_messages (system_text raw (convert l).system) (convert l).messages) m
      ∙ convert-round_trip raw system ms p,
)
