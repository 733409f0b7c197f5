-- ===== src/Providers/Think/Rounds.antt =====
-- The rounds of the loop of process over a buffer that is extended at either end.
use mathlib.Core.List.{append_assoc, append-nil}
use claude_code_router.Common.{
  ℕ, zero, suc, ◌-◌, ◌≡◌, ◌<◌, ◌≤◌, refl, sym, ap, ◌∙◌, Text, cut_prefix, Bool, true, false, ◌==◌,
  [], ◌∷◌, ◌++◌, Option, none, some, some_inj, length, length-append, take, arith, Bool-cases,
  Option-cases, inl, inr,
}
use claude_code_router.Providers.Think.{
  Routed, find, loop, tag_of, flip, add, keep_partial, partial_tag_overlap,
}
use claude_code_router.Providers.Think.Segments.{Cuts, find-Cuts, tag_of-positive}
use claude_code_router.Providers.Think.Fits.{
  fits, lead, kept, Clear, fits-prefix, fits-append, fits-cut_prefix, lead-append, kept-append,
  shift, find-Clear,
}
use claude_code_router.Providers.Think.Split.{split_off}

cut_prefix-grow : (p s y r : Text) → cut_prefix p s ≡ some r → cut_prefix p (s ++ y) ≡ some (r ++ y)
unfolding cut_prefix
cut_prefix-grow [] s y r e = ap (λ t. some (t ++ y)) (some_inj e)
cut_prefix-grow (a ∷ p) [] y r e = absurd (cc)
cut_prefix-grow (a ∷ p) (b ∷ s) y r e = elim (Bool-cases (a == b)) [
  | inl q ↦ rw q (cut_prefix-grow p s y r (rw q at e))
  | inr q ↦ absurd (cc (rw q at e))
]

find-length :
    (tag s : Text) (o : Option (Text × Text))
    → Cuts tag s o
    → (x r : Text) → o ≡ some (x, r)
    → length tag ≤ length s
find-length tag s none c x r e = absurd (cc)
find-length tag s (some (x', r')) c x r e =
    omega (arith, ap length c, length-append (x' ++ tag) r', length-append x' tag)

find-nil : (a : ℕ) (p : Text) → find (a ∷ p) [] ≡ none
unfolding find cut_prefix
find-nil a p = refl

-- A tag that was found is found in a longer buffer as well.
pub find-grow :
    (tag s y x r : Text)
    → 0 < length tag
    → find tag s ≡ some (x, r)
    → find tag (s ++ y) ≡ some (x, r ++ y)
unfolding find
find-grow [] s y x r h e = absurd (omega (arith, h))
find-grow (a ∷ p) [] y x r h e = absurd (cc (e, find-nil a p))
find-grow (a ∷ p) (b ∷ s) y x r h e = elim (Option-cases (cut_prefix (a ∷ p) (b ∷ s))) [
  | inr (t, q) ↦
      let same = some_inj (rw q at e) in
      rw (cut_prefix-grow (a ∷ p) (b ∷ s) y t q) (ap (λ z. some (z.0, z.1 ++ y)) same)
  | inl q ↦ elim (Option-cases (find (a ∷ p) s)) [
    | inl n ↦ absurd (cc (rw (q, n) at e))
    | inr ((u, v), n) ↦
        let same = some_inj (rw (q, n) at e) in
        let long = find-length (a ∷ p) s (find (a ∷ p) s) (find-Cuts (a ∷ p) s) u v n in
        let apart = fits-append (a ∷ p) (b ∷ s) y (never (a ∷ p) (b ∷ s) q (omega (arith, long))) in
        rw (fits-cut_prefix (a ∷ p) (b ∷ s ++ y) apart, find-grow (a ∷ p) s y u v h n)
          (ap (λ z. some (z.0, z.1 ++ y)) same)
  ]
]
  where
    never : (tag t : Text) → cut_prefix tag t ≡ none → length tag ≤ length t → fits tag t ≡ false
    never tag t c l = elim (Bool-cases (fits tag t)) [
      | inr n ↦ n
      | inl f ↦ absurd (omega (arith, l, (fits-prefix tag t f c).0))
    ]

-- What the loop does in one round, whatever the buffer.
abbrev pub step : ℕ → Bool → Text → Routed → Option (Text × Text) → Routed
step n m buf r none = record (add m (lead (tag_of m) buf) r) {
  filter = record { in_think = m; partial = kept (tag_of m) buf };
}
step n m buf r (some (s, rest)) =
    loop n (flip m) rest
      (record (add m s r) { filter = record { in_think = flip m; partial = [] } })

-- The filter waits for the tag of its mode and keeps nothing back.
abbrev pub IsFresh : Bool → Routed → Type 0
IsFresh m r = r.filter ≡ record { in_think = m; partial = [] }

keep_partial-step :
    (m : Bool) (buf : Text) (r : Routed)
    → find (tag_of m) buf ≡ none
    → keep_partial m buf r ≡ step 0 m buf r none
unfolding keep_partial
keep_partial-step m buf r e =
    let (a, b) = split_off (tag_of m) buf (tag_of-positive m) e in rw (a, b) refl

add-nil : (m : Bool) (r : Routed) → IsFresh m r → r ≡ step 0 m [] r none
add-nil true r f = rw (append-nil r.think) (ap (λ x. record r { filter = x }) f)
add-nil false r f = rw (append-nil r.text) (ap (λ x. record r { filter = x }) f)

tag-nil : (m : Bool) → find (tag_of m) [] ≡ none
tag-nil true = find-nil _ _
tag-nil false = find-nil _ _

pub loop-step :
    (n : ℕ) (m : Bool) (buf : Text) (r : Routed)
    → IsFresh m r
    → loop (suc n) m buf r ≡ step n m buf r (find (tag_of m) buf)
unfolding loop
loop-step n m [] r f = rw (tag-nil m) (add-nil m r f)
loop-step n m (b ∷ buf) r f = elim (Option-cases (find (tag_of m) (b ∷ buf))) [
  | inl e ↦ rw (e, loop) (keep_partial-step m (b ∷ buf) r e)
  | inr (x, e) ↦ rw (e, loop) refl
]

add-add : (m : Bool) (a b : Text) (r : Routed) → add m (a ++ b) r ≡ add m b (add m a r)
add-add true a b r = ap (λ t. record r { think = t }) (sym (append_assoc r.think a b))
add-add false a b r = ap (λ t. record r { text = t }) (sym (append_assoc r.text a b))

add-IsFresh : (m : Bool) (a : Text) (r : Routed) → IsFresh m r → IsFresh m (add m a r)
add-IsFresh true a r f = f
add-IsFresh false a r f = f

step-shift :
    (n : ℕ) (m : Bool) (pre x : Text) (r : Routed) (o : Option (Text × Text))
    → Clear (tag_of m) pre x
    → step n m (pre ++ x) r (shift pre o) ≡ step n m x (add m pre r) o
step-shift n m pre x r none c =
    rw
      (
        lead-append (tag_of m) pre x c,
        kept-append (tag_of m) pre x c,
        add-add m pre (lead (tag_of m) x) r,
      )
      refl
step-shift n m pre x r (some (s, rest)) c = rw (add-add m pre s r) refl

-- Bytes at which the tag cannot begin go out as they are.
pub loop-shift :
    (n : ℕ) (m : Bool) (pre x : Text) (r : Routed)
    → IsFresh m r
    → Clear (tag_of m) pre x
    → loop (suc n) m (pre ++ x) r ≡ loop (suc n) m x (add m pre r)
loop-shift n m pre x r f c =
    loop-step n m (pre ++ x) r f
    ∙ ap (step n m (pre ++ x) r) (find-Clear (tag_of m) pre x c)
    ∙ step-shift n m pre x r (find (tag_of m) x) c
    ∙ sym (loop-step n m x (add m pre r) (add-IsFresh m pre r f))

-- What was routed before stays in front.
abbrev pub behind : Text → Text → Routed → Routed
behind t th r = record r { text = t ++ r.text; think = th ++ r.think }

add-behind :
    (m : Bool) (s t th : Text) (r : Routed) → add m s (behind t th r) ≡ behind t th (add m s r)
add-behind true s t th r =
    ap (λ x. record (behind t th r) { think = x }) (append_assoc th r.think s)
add-behind false s t th r = ap (λ x. record (behind t th r) { text = x }) (append_assoc t r.text s)

pub loop-behind :
    (n : ℕ) (m : Bool) (buf t th : Text) (r : Routed)
    → loop n m buf (behind t th r) ≡ behind t th (loop n m buf r)
unfolding loop keep_partial
loop-behind zero m buf t th r = refl
loop-behind (suc n) m [] t th r = refl
loop-behind (suc n) m (b ∷ buf) t th r = elim (Option-cases (find (tag_of m) (b ∷ buf))) [
  | inl e ↦
      rw
        (
          e,
          loop,
          add-behind m
              (take (length (b ∷ buf) - partial_tag_overlap (b ∷ buf) (tag_of m)) (b ∷ buf)) t th r,
        )
        refl
  | inr ((s, rest), e) ↦ rw (e, loop, add-behind m s t th r) (loop-behind n (flip m) rest t th _)
]
