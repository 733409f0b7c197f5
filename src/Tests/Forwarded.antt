-- ===== src/Tests/Forwarded.antt =====
-- A stream of two events as an Anthropic upstream sends it.
use claude_code_router.Common.{
  ◌≡◌, refl, Text, codes, Bool, true, false, ◌==◌, if◌then◌else◌, [], ◌∷◌, none, All, map, flatten,
  Bool-cases, inl, inr, trim_space, arith, length, ◌<◌,
}
use claude_code_router.Events.Lines.{newline, drop_cr}
use claude_code_router.Events.Lines.Scanned.{unlines, IsLine}
use claude_code_router.Providers.Http.{Streamed, responded}
use claude_code_router.Providers.Anthropic.{max_token, stream}
use claude_code_router.Providers.Anthropic.Forwarding.{Event, IsEvent, lines_of, stream-forwards}
use claude_code_router.Tests.Proxied.{no_json}

no_newline : Text → Bool
no_newline [] = true
no_newline (b ∷ s) = let rest = no_newline s in if b == newline then false else rest

no_newline-All : (s : Text) → no_newline s ≡ true → All (λ b. (b == newline) ≡ false) s
unfolding no_newline
no_newline-All [] h = tt
no_newline-All (b ∷ s) h = elim (Bool-cases (b == newline)) [
  | inl y ↦ absurd (cc (rw y at h))
  | inr n ↦ (n, no_newline-All s (rw n at h))
]

plain-IsLine :
    (l : Text) → no_newline l ≡ true → drop_cr l ≡ l → length l < max_token → IsLine max_token l
plain-IsLine l n k f = record { one = no_newline-All l n; kept = k; fits = f }

abbrev ping : Event
ping = record { name = codes "ping"; first = codes "{}"; others = [] }

-- Its data are cut in two lines.
abbrev stop : Event
stop = record { name = codes "message_stop"; first = codes "{\"type\":"; others = codes "1}" ∷ [] }

ping-IsEvent : IsEvent ping
unfolding no_newline trim_space drop_cr
ping-IsEvent = record {
  named = λ e. cc;
  name = refl;
  first = refl;
  others = tt;
  lines = (
    plain-IsLine _ refl refl (omega arith),
    (plain-IsLine _ refl refl (omega arith), (plain-IsLine _ refl refl (omega arith), tt)),
  );
}

stop-IsEvent : IsEvent stop
unfolding no_newline trim_space drop_cr
stop-IsEvent = record {
  named = λ e. cc;
  name = refl;
  first = refl;
  others = (refl, tt);
  lines = (
    plain-IsLine _ refl refl (omega arith),
    (
      plain-IsLine _ refl refl (omega arith),
      (plain-IsLine _ refl refl (omega arith), (plain-IsLine _ refl refl (omega arith), tt)),
    ),
  );
}

abbrev sent : Text
sent = unlines (flatten (map lines_of (ping ∷ stop ∷ [])))

abbrev passed : Streamed
passed =
    stream no_json (λ s. 0)
      (responded (record {
        status = 200;
        retry_after = [];
        body = record { bytes = sent; read_error = none; cancelled = λ i. false; met = λ i. false };
      }))

stream-forwards_example : (passed.written ≡ sent) × (passed.error ≡ none)
stream-forwards_example =
    stream-forwards no_json (λ s. 0) [] (λ i. false) (ping ∷ stop ∷ [])
      (ping-IsEvent, (stop-IsEvent, tt))
