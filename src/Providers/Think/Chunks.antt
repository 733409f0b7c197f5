-- ===== src/Providers/Think/Chunks.antt =====
-- process does not see how its input is cut.
use mathlib.Core.List.{append_assoc, append-nil}
use claude_code_router.Common.{
  ℕ, zero, suc, ◌+◌, ◌≡◌, ◌<◌, refl, sym, ap, subst, ◌∙◌, Text, Bool, [], ◌++◌, none, true, false,
  length, length-append, arith, Option-cases, inl, inr,
}
use claude_code_router.Providers.Think.{ThinkFilter, Routed, find, loop, tag_of, flip, add, process}
use claude_code_router.Providers.Think.Fuel.{Shorter, tag-Shorter, loop_fuel}
use claude_code_router.Providers.Think.Segments.{tag_of-positive}
use claude_code_router.Providers.Think.Fits.{lead, kept, lead-Clear, lead-kept, Clear-append}
use claude_code_router.Providers.Think.Rounds.{
  IsFresh, step, loop-step, loop-shift, loop-behind, behind, find-grow,
}

-- The loop over what was kept back and the next chunk, behind what was routed before.
abbrev then_process : Text → Routed → Routed
then_process b q =
    loop (suc (length (q.filter.partial ++ b))) q.filter.in_think (q.filter.partial ++ b)
      (record q { filter = record { in_think = q.filter.in_think; partial = [] } })

fresh-eq :
    (m : Bool) (s : Text) (r : Routed)
    → IsFresh m r
    → record (add m s r) { filter = record { in_think = m; partial = [] } } ≡ add m s r
fresh-eq true s r f = ap (λ x. record (add true s r) { filter = x }) (sym f)
fresh-eq false s r f = ap (λ x. record (add false s r) { filter = x }) (sym f)

-- The round that finds no tag.
last-cut :
    (N : ℕ) (m : Bool) (buf b : Text) (r : Routed)
    → length (buf ++ b) < suc N
    → IsFresh m r
    → loop (suc N) m (buf ++ b) r ≡ then_process b (step 0 m buf r none)
last-cut N m buf b r h f =
    let pre = lead (tag_of m) buf in
    let k = kept (tag_of m) buf in
    let whole : buf ++ b ≡ pre ++ (k ++ b) =
      ap (λ t. t ++ b) (sym (lead-kept (tag_of m) buf)) ∙ append_assoc pre k b in
    let long : length (buf ++ b) ≡ length pre + length (k ++ b) =
      ap length whole ∙ length-append pre (k ++ b) in
    ap (λ t. loop (suc N) m t r) whole
    ∙ loop-shift N m pre (k ++ b) r f (Clear-append (tag_of m) pre k b (lead-Clear (tag_of m) buf))
    ∙ loop_fuel (suc N) (suc (length (k ++ b))) m (k ++ b) (add m pre r) (omega (arith, h, long))
        (omega arith)
    ∙ ap (loop (suc (length (k ++ b))) m (k ++ b)) (sym (fresh-eq m pre r f))

loop-cut :
    (n N : ℕ) (m : Bool) (buf b : Text) (r : Routed)
    → length buf < n
    → length (buf ++ b) < N
    → IsFresh m r
    → loop N m (buf ++ b) r ≡ then_process b (loop n m buf r)
loop-cut zero N m buf b r h g f = absurd (omega (arith, h))
loop-cut (suc n) zero m buf b r h g f = absurd (omega (arith, g))
loop-cut (suc n) (suc N) m buf b r h g f = elim (Option-cases (find (tag_of m) buf)) [
  | inl e ↦
      last-cut N m buf b r g f
      ∙ ap (then_process b) (sym (loop-step n m buf r f ∙ ap (step n m buf r) e))
  | inr ((s, rest), e) ↦
      let less : length rest < length buf =
        subst (λ o. Shorter (length buf) o) e (tag-Shorter m buf) in
      let shorter : length rest < n = omega (arith, less, h) in
      let longer : length (rest ++ b) < N =
        omega (arith, less, g, length-append rest b, length-append buf b) in
      loop-step N m (buf ++ b) r f
      ∙ ap (step N m (buf ++ b) r) (find-grow (tag_of m) buf b s rest (tag_of-positive m) e)
      ∙ loop-cut n N (flip m) rest b _ shorter longer refl
      ∙ ap (then_process b) (sym (loop-step n m buf r f ∙ ap (step n m buf r) e))
]

-- A chunk may be cut anywhere, also inside a tag: the filter routes the two pieces, one after the
-- other, to the text and the thinking that it routes the whole chunk to, and is left in the same state.
pub process-append :
    (f : ThinkFilter) (a b : Text)
    → let q = process f a in
      let r = process q.filter b in
      process f (a ++ b)
      ≡ record { text = q.text ++ r.text; think = q.think ++ r.think; filter = r.filter }
unfolding process
process-append f a b =
    let start : Routed = record {
      text = [];
      think = [];
      filter = record { in_think = f.in_think; partial = [] };
    } in
    let whole = f.partial ++ a in
    let q = loop (suc (length whole)) f.in_think whole start in
    let buf = q.filter.partial ++ b in
    ap (λ t. loop (suc (length t)) f.in_think t start) (sym (append_assoc f.partial a b))
    ∙ loop-cut (suc (length whole)) (suc (length (whole ++ b))) f.in_think whole b start
        (omega arith) (omega arith) refl
    ∙ ap (loop (suc (length buf)) q.filter.in_think buf) (front q)
    ∙ loop-behind (suc (length buf)) q.filter.in_think buf q.text q.think _
  where
    front :
        (q : Routed)
        → record q { filter = record { in_think = q.filter.in_think; partial = [] } }
          ≡ behind q.text q.think (record {
            text = [];
            think = [];
            filter = record { in_think = q.filter.in_think; partial = [] };
          })
    front q = rw (append-nil q.text, append-nil q.think) refl
