-- ===== src/Providers/Think/Fuel.antt =====
-- The loop of process ends: every tag taken off the buffer leaves a shorter one.
use claude_code_router.Common.{
  ℕ, zero, suc, ◌≡◌, ◌≤◌, ◌<◌, refl, Text, cut_prefix, Bool, true, false, ◌==◌, [], ◌∷◌, Option,
  none, some, some_inj, length, arith, Bool-cases, inl, inr,
}
use claude_code_router.Providers.Think.{
  Routed, find, loop, tag_of, flip, add, before, here_or, keep_partial,
}

cut_prefix-length : (p s rest : Text) → cut_prefix p s ≡ some rest → length rest ≤ length s
unfolding cut_prefix
cut_prefix-length [] s rest e = rw (some_inj e) (omega arith)
cut_prefix-length (a ∷ p) [] rest e = absurd (none-ne-some e)
  where
    none-ne-some : none ≡ some rest → ⊥
    none-ne-some q = cc
cut_prefix-length (a ∷ p) (b ∷ s) rest e = elim (Bool-cases (a == b)) [
  | inl y ↦ omega (arith, cut_prefix-length p s rest (rw (y, cut_prefix) at e))
  | inr n ↦ absurd (none-ne-some (rw (n, cut_prefix) at e))
]
  where
    none-ne-some : none ≡ some rest → ⊥
    none-ne-some q = cc

here-length :
    (a b : ℕ) (p s rest : Text)
    → cut_prefix (a ∷ p) (b ∷ s) ≡ some rest
    → length rest < length (b ∷ s)
unfolding cut_prefix
here-length a b p s rest e = elim (Bool-cases (a == b)) [
  | inl y ↦ omega (arith, cut_prefix-length p s rest (rw (y, cut_prefix) at e))
  | inr n ↦ absurd (none-ne-some (rw (n, cut_prefix) at e))
]
  where
    none-ne-some : none ≡ some rest → ⊥
    none-ne-some q = cc

-- The text behind the piece that is found.
abbrev pub Shorter : ℕ → Option (Text × Text) → Type 0
Shorter n none = Unit
Shorter n (some (s, rest)) = length rest < n

later-Shorter : (b n : ℕ) (o : Option (Text × Text)) → Shorter n o → Shorter (suc n) (before b o)
later-Shorter b n none h = tt
later-Shorter b n (some (s, rest)) h = omega (arith, h)

find-Shorter : (a : ℕ) (p s : Text) → Shorter (length s) (find (a ∷ p) s)
unfolding find cut_prefix
find-Shorter a p [] = tt
find-Shorter a p (b ∷ s) =
    found (cut_prefix (a ∷ p) (b ∷ s)) (here-length a b p s) (find-Shorter a p s)
  where
    found :
        (o : Option Text)
        → ((rest : Text) → o ≡ some rest → length rest < length (b ∷ s))
        → Shorter (length s) (find (a ∷ p) s)
        → Shorter (length (b ∷ s)) (here_or o (before b (find (a ∷ p) s)))
    found none h x = later-Shorter b (length s) (find (a ∷ p) s) x
    found (some rest) h x = h rest refl

pub tag-Shorter : (m : Bool) (s : Text) → Shorter (length s) (find (tag_of m) s)
tag-Shorter false s = find-Shorter b'<' _ s
tag-Shorter true s = find-Shorter b'<' _ s

-- Any two amounts of fuel above the length of the buffer give the same result, so the loop, which runs
-- with one more than the length, never stops for want of fuel.
pub loop_fuel :
    (n k : ℕ) (m : Bool) (buf : Text) (r : Routed)
    → length buf < n
    → length buf < k
    → loop n m buf r ≡ loop k m buf r
unfolding loop
loop_fuel zero k m buf r h g = absurd (omega (arith, h))
loop_fuel (suc n) zero m buf r h g = absurd (omega (arith, g))
loop_fuel (suc n) (suc k) m [] r h g = refl
loop_fuel (suc n) (suc k) m (b ∷ buf) r h g =
    go (find (tag_of m) (b ∷ buf)) (tag-Shorter m (b ∷ buf))
      (λ rest x q. loop_fuel n k (flip m) rest x (omega (arith, h, q)) (omega (arith, g, q)))
  where
    go :
        (o : Option (Text × Text))
        → Shorter (length (b ∷ buf)) o
        → ((rest : Text) (x : Routed)
            → length rest < length (b ∷ buf)
            → loop n (flip m) rest x ≡ loop k (flip m) rest x)
        → (elim o [
          | none ↦ keep_partial m (b ∷ buf) r
          | some (s, rest) ↦
              loop n
                (flip m)
                rest
                (record (add m s r) { filter = record { in_think = flip m; partial = [] } })
        ])
          ≡ (elim o [
            | none ↦ keep_partial m (b ∷ buf) r
            | some (s, rest) ↦
                loop k
                  (flip m)
                  rest
                  (record (add m s r) { filter = record { in_think = flip m; partial = [] } })
          ])
    go none sh later = refl
    go (some (s, rest)) sh later = later rest _ sh
