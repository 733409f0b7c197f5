-- ===== src/Router/Converter/Chunking.antt =====
-- The converter does not see how its input is cut into Write calls.
use claude_code_router.Common.{
  flatten, ◌≡◌, refl, sym, ap, ◌∙◌, Text, Bool, true, if◌then◌else◌, List, [], ◌∷◌, ◌++◌, Option,
  Bool-cases, inl, inr,
}
use mathlib.Core.List.{append_assoc, append-nil}
use claude_code_router.Json.{Json}
use claude_code_router.Events.Lines.{split_lines, split_lines-append}
use claude_code_router.Router.OpenAiChunks.{Emitted}
use claude_code_router.Router.Converter.{Converter, State, step, feed, write}

module _ {W : Type 0} (put : Emitted → W → W × Bool) (decode : Text → Option Json) where
  -- A second Write, made only if the first reports no error.
  abbrev pub then_write : Text → Converter × W × Bool → Converter × W × Bool
  then_write q r = if r.2 then write put decode q r.0 r.1 else r

  feed-append :
      (ls : List Text) (rest : Text) (q : Text) (c : State) (w : W)
      → let more = split_lines (rest ++ q) in
        feed put decode (ls ++ more.0) more.1 c w ≡ then_write q (feed put decode ls rest c w)
  unfolding feed write
  feed-append [] rest q c w = refl
  feed-append (l ∷ ls) rest q c w = elim (Bool-cases (step put decode l c w).2) [
    | inl e ↦ rw e (feed-append ls rest q _ _)
    | inr e ↦ rw e
  ]

  -- Writing two pieces one after the other, the second only if the first reports no error, leaves the
  -- same converter, the same output and the same error as writing them as one piece.
  pub write-append :
      (p q : Text) (c : Converter) (w : W)
      → write put decode (p ++ q) c w ≡ then_write q (write put decode p c w)
  unfolding write
  write-append p q c w =
      ap (λ s. feed put decode s.0 s.1 c.state w)
        (ap split_lines (sym (append_assoc c.remainder p q))
          ∙ split_lines-append (c.remainder ++ p) q)
      ∙ feed-append (split_lines (c.remainder ++ p)).0 (split_lines (c.remainder ++ p)).1 q c.state
          w

  -- A stream of Write calls that stops at the first error.
  pub write_all : List Text → Converter → W → Converter × W × Bool
  write_all [] c w = (c, w, true)
  write_all (p ∷ ps) c w =
      let rest = write_all ps (write put decode p c w).0 (write put decode p c w).1 in
      if (write put decode p c w).2 then rest else write put decode p c w

  write_all-eq-write :
      (p : Text) (ps : List Text) (c : Converter) (w : W)
      → write_all (p ∷ ps) c w ≡ write put decode (p ++ flatten ps) c w
  unfolding write_all
  write_all-eq-write p [] c w = elim (Bool-cases (write put decode p c w).2) [
    | inl e ↦ rw (append-nil p, e)
    | inr e ↦ rw (append-nil p, e)
  ]
  write_all-eq-write p (q ∷ ps) c w = elim (Bool-cases (write put decode p c w).2) [
    | inl e ↦ rw (write-append p (q ++ flatten ps) c w, e) (write_all-eq-write q ps _ _)
    | inr e ↦ rw (write-append p (q ++ flatten ps) c w, e)
  ]

  -- Two ways to cut the same bytes into Write calls leave the same converter, the same output and the
  -- same error.
  pub write_all_of_same_bytes :
      (p q : Text) (ps qs : List Text) (c : Converter) (w : W)
      → p ++ flatten ps ≡ q ++ flatten qs
      → write_all (p ∷ ps) c w ≡ write_all (q ∷ qs) c w
  write_all_of_same_bytes p q ps qs c w e =
      write_all-eq-write p ps c w
      ∙ ap (λ s. write put decode s c w) e
      ∙ sym (write_all-eq-write q qs c w)
