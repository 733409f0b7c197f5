-- ===== src/Providers/Think/Segments.antt =====
-- What process does with the bytes that it is given.
use mathlib.Core.List.{append_assoc, append-nil}
use claude_code_router.Common.{
  ℕ, zero, suc, ◌-◌, ◌≡◌, ◌<◌, refl, sym, ap, subst, ◌∙◌, Text, cut_prefix, Bool, true, false, ◌==◌,
  ==_iff, ◌++◌, [], ◌∷◌, Option, none, some, some_inj, length, take, drop, arith, Bool-cases, inl,
  inr,
}
use claude_code_router.Providers.Think.{
  ThinkFilter, Routed, find, loop, tag_of, flip, add, before, here_or, keep_partial,
  partial_tag_overlap, process,
}
use claude_code_router.Providers.Think.Overlap.{partial_tag_overlap-prefix}
use claude_code_router.Providers.Think.Fuel.{Shorter, tag-Shorter}

abbrev pub text_part : Bool → Text → Text
text_part true s = []
text_part false s = s

abbrev pub think_part : Bool → Text → Text
think_part true s = s
think_part false s = []

-- A proper prefix of a tag, empty at the least.
abbrev pub Begins : Text → Text → Type 0
Begins s tag = (n : ℕ) × (n < length tag) × (s ≡ take n tag)

-- A buffer, read in a mode, is cut into segments by whole tags, each of which switches the mode: the
-- segments in text mode make the text, those in thinking mode the thinking, and the end of the last
-- segment is kept back. Each cut is at the first tag, the last segment has none,
-- and what is kept back is the beginning of the tag that it awaits.
pub data Segments : Bool → Text → Text → Text → Bool → Text → Type 0 where
  ends :
      (m : Bool) (s kept : Text)
      → find (tag_of m) (s ++ kept) ≡ none
      → Begins kept (tag_of m)
      → Segments m (s ++ kept) (text_part m s) (think_part m s) m kept
  switches :
      {m mode : Bool} {rest t th kept : Text}
      → (s : Text) → find (tag_of m) (s ++ tag_of m ++ rest) ≡ some (s, rest)
      → Segments (flip m) rest t th mode kept
      → Segments m (s ++ tag_of m ++ rest) (text_part m s ++ t) (think_part m s ++ th) mode kept

cut_prefix-append : (p s rest : Text) → cut_prefix p s ≡ some rest → s ≡ p ++ rest
unfolding cut_prefix
cut_prefix-append [] s rest e = some_inj e
cut_prefix-append (a ∷ p) [] rest e = absurd (none-ne-some e)
  where
    none-ne-some : none ≡ some rest → ⊥
    none-ne-some q = cc
cut_prefix-append (a ∷ p) (b ∷ s) rest e = elim (Bool-cases (a == b)) [
  | inl y ↦
      rw ((==_iff a b).0 y) (ap (λ t. b ∷ t) (cut_prefix-append p s rest (rw (y, cut_prefix) at e)))
  | inr n ↦ absurd (none-ne-some (rw (n, cut_prefix) at e))
]
  where
    none-ne-some : none ≡ some rest → ⊥
    none-ne-some q = cc

-- The two slices round a tag.
abbrev pub Cuts : Text → Text → Option (Text × Text) → Type 0
Cuts tag s none = Unit
Cuts tag s (some (pre, rest)) = s ≡ pre ++ tag ++ rest

before-Cuts :
    (tag s : Text) (b : ℕ) (o : Option (Text × Text)) → Cuts tag s o → Cuts tag (b ∷ s) (before b o)
before-Cuts tag s b none h = tt
before-Cuts tag s b (some (pre, rest)) h = ap (λ t. b ∷ t) h

pub find-Cuts : (tag s : Text) → Cuts tag s (find tag s)
unfolding find
find-Cuts tag [] = found (cut_prefix tag []) (cut_prefix-append tag [])
  where
    found :
        (o : Option Text)
        → ((rest : Text) → o ≡ some rest → [] ≡ tag ++ rest)
        → Cuts tag [] (here_or o none)
    found none h = tt
    found (some rest) h = h rest refl
find-Cuts tag (b ∷ s) =
    found (cut_prefix tag (b ∷ s)) (cut_prefix-append tag (b ∷ s)) (find-Cuts tag s)
  where
    found :
        (o : Option Text)
        → ((rest : Text) → o ≡ some rest → b ∷ s ≡ tag ++ rest)
        → Cuts tag s (find tag s)
        → Cuts tag (b ∷ s) (here_or o (before b (find tag s)))
    found none h x = before-Cuts tag s b (find tag s) x
    found (some rest) h x = h rest refl

take-drop : (n : ℕ) (s : Text) → take n s ++ drop n s ≡ s
take-drop zero s = refl
take-drop (suc n) [] = refl
take-drop (suc n) (b ∷ s) = ap (λ t. b ∷ t) (take-drop n s)

-- The result of routing a buffer, behind what was routed before.
abbrev IsRouted : Bool → Text → Routed → Routed → Type 0
IsRouted m buf r q =
    (t : Text) × (th : Text) × Segments m buf t th q.filter.in_think q.filter.partial
    × (q.text ≡ r.text ++ t)
    × (q.think ≡ r.think ++ th)

ended-IsRouted :
    (m : Bool) (s kept : Text) (r : Routed)
    → find (tag_of m) (s ++ kept) ≡ none
    → Begins kept (tag_of m)
    → IsRouted m
        (s ++ kept)
        r
        (record (add m s r) { filter = record { in_think = m; partial = kept } })
ended-IsRouted true s kept r e g = (_, _, ends true s kept e g, sym (append-nil r.text), refl)
ended-IsRouted false s kept r e g = (_, _, ends false s kept e g, refl, sym (append-nil r.think))

empty-IsRouted :
    (m : Bool) (r : Routed) → r.filter ≡ record { in_think = m; partial = [] } → IsRouted m [] r r
unfolding find cut_prefix
empty-IsRouted true r f = (
  [],
  [],
  subst (λ x. Segments true [] [] [] x.in_think x.partial) (sym f)
      (ends true [] [] refl (0, omega arith, refl)),
  sym (append-nil r.text),
  sym (append-nil r.think),
)
empty-IsRouted false r f = (
  [],
  [],
  subst (λ x. Segments false [] [] [] x.in_think x.partial) (sym f)
      (ends false [] [] refl (0, omega arith, refl)),
  sym (append-nil r.text),
  sym (append-nil r.think),
)

switched-IsRouted :
    (m : Bool) (s rest : Text) (r q : Routed)
    → find (tag_of m) (s ++ tag_of m ++ rest) ≡ some (s, rest)
    → IsRouted
        (flip m)
        rest
        (record (add m s r) { filter = record { in_think = flip m; partial = [] } })
        q
    → IsRouted m (s ++ tag_of m ++ rest) r q
switched-IsRouted true s rest r q e (t, th, x, a, b) =
    (_, _, switches s e x, a, b ∙ append_assoc r.think s th)
switched-IsRouted false s rest r q e (t, th, x, a, b) =
    (_, _, switches s e x, a ∙ append_assoc r.text s t, b)

pub tag_of-positive : (m : Bool) → 0 < length (tag_of m)
tag_of-positive true = omega arith
tag_of-positive false = omega arith

loop-IsRouted :
    (n : ℕ) (m : Bool) (buf : Text) (r : Routed)
    → length buf < n
    → r.filter ≡ record { in_think = m; partial = [] }
    → IsRouted m buf r (loop n m buf r)
unfolding loop keep_partial
loop-IsRouted zero m buf r h f = absurd (omega (arith, h))
loop-IsRouted (suc n) m [] r h f = empty-IsRouted m r f
loop-IsRouted (suc n) m (b ∷ buf) r h f =
    go (find (tag_of m) (b ∷ buf)) refl (tag-Shorter m (b ∷ buf)) (find-Cuts (tag_of m) (b ∷ buf))
      (λ rest x q. loop-IsRouted n (flip m) rest x (omega (arith, h, q)))
  where
    go :
        (o : Option (Text × Text))
        → find (tag_of m) (b ∷ buf) ≡ o
        → Shorter (length (b ∷ buf)) o
        → Cuts (tag_of m) (b ∷ buf) o
        → ((rest : Text) (x : Routed)
            → length rest < length (b ∷ buf)
            → x.filter ≡ record { in_think = flip m; partial = [] }
            → IsRouted (flip m) rest x (loop n (flip m) rest x))
        → IsRouted m (b ∷ buf) r (elim o [
          | none ↦ keep_partial m (b ∷ buf) r
          | some (s, rest) ↦
              loop n
                (flip m)
                rest
                (record (add m s r) { filter = record { in_think = flip m; partial = [] } })
        ])
    go none e sh c later =
        let k = length (b ∷ buf) - partial_tag_overlap (b ∷ buf) (tag_of m) in
        let o = partial_tag_overlap-prefix (b ∷ buf) (tag_of m) (tag_of-positive m) in
        subst (λ x. IsRouted m x r (keep_partial m (b ∷ buf) r)) (take-drop k (b ∷ buf))
          (ended-IsRouted m (take k (b ∷ buf)) (drop k (b ∷ buf)) r
            (ap (find (tag_of m)) (take-drop k (b ∷ buf)) ∙ e) (_, o.0, o.1))
    go (some (s, rest)) e sh c later =
        subst
          (λ x. IsRouted m x r (
            loop n (flip m) rest
              (record (add m s r) { filter = record { in_think = flip m; partial = [] } })))
          (sym c)
          (switched-IsRouted m s rest r _ (ap (find (tag_of m)) (sym c) ∙ e) (later rest _ sh refl))

-- What a filter kept before, followed by a chunk, is cut into segments by whole tags. Each cut is at
-- the first tag that the mode awaits, and switches the mode. In order, the segments in text mode are
-- the text that comes out and those in thinking mode the thinking; the mode after the last tag is the
-- filter's new mode. Only the end of the last segment, which has no awaited tag, is kept for the next
-- chunk, and it is a proper prefix of that tag. No other byte is lost, repeated or moved.
pub process-Segments :
    (f : ThinkFilter) (chunk : Text)
    → Segments f.in_think
        (f.partial ++ chunk)
        (process f chunk).text
        (process f chunk).think
        (process f chunk).filter.in_think
        (process f chunk).filter.partial
unfolding process
process-Segments f chunk = from (
    loop-IsRouted (suc (length (f.partial ++ chunk))) f.in_think (f.partial ++ chunk)
      (record { text = []; think = []; filter = record { in_think = f.in_think; partial = [] } })
      (omega arith) refl)
  where
    from :
        {m : Bool} {buf : Text} {q : Routed}
        → IsRouted m buf
            (record { text = []; think = []; filter = record { in_think = m; partial = [] } })
            q
        → Segments m buf q.text q.think q.filter.in_think q.filter.partial
    from {m} {buf} {q} (t, th, x, a, b) =
        subst (λ u. Segments m buf u q.think q.filter.in_think q.filter.partial) (sym a)
          (subst (λ u. Segments m buf t u q.filter.in_think q.filter.partial) (sym b) x)
