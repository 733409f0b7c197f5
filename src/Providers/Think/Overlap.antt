-- ===== src/Providers/Think/Overlap.antt =====
-- The end of a buffer that partialTagOverlap finds.
use claude_code_router.Common.{
  ℕ, zero, suc, ◌-◌, ◌≡◌, ◌<◌, ◌≤◌, refl, Text, Bool, true, false, ◌&&◌, leb, [], ◌∷◌, length, take,
  drop, arith, Bool-cases, inl, inr, ap, subst, text_eq_iff, if◌then◌else◌,
}
use native.Mathlib.Decide.{dec_lt}
use claude_code_router.Providers.Think.{overlap_from, has_suffix, partial_tag_overlap}

drop-length : (s : Text) → drop (length s) s ≡ []
drop-length [] = refl
drop-length (b ∷ s) = drop-length s

drop-minus : (s : Text) → drop (length s - 0) s ≡ []
drop-minus s = subst (λ n. drop n s ≡ []) (sub_zero (length s)) (drop-length s)
  where
    sub_zero : (n : ℕ) → n ≡ n - 0
    sub_zero n = omega arith

-- What has_suffix compares, and the length of a shorter prefix.
has_suffix-drop : (s p : Text) → has_suffix s p ≡ true → drop (length s - length p) s ≡ p
unfolding has_suffix
has_suffix-drop s p h =
    (text_eq_iff (drop (length s - length p) s) p).0 (second (leb (length p) (length s)) _ h)
  where
    second : (a b : Bool) → (a && b) ≡ true → b ≡ true
    second true b q = q
    second false b q = cc

length-take : (n : ℕ) (s : Text) → n ≤ length s → length (take n s) ≡ n
length-take zero s h = refl
length-take (suc n) [] h = absurd (omega (arith, h))
length-take (suc n) (b ∷ s) h = ap suc (length-take n s (omega (arith, h)))

overlap_from-prefix :
    (l : ℕ) (s tag : Text)
    → l ≤ length tag
    → (overlap_from l s tag ≤ l)
      × (drop (length s - overlap_from l s tag) s ≡ take (overlap_from l s tag) tag)
unfolding overlap_from
overlap_from-prefix zero s tag h = (omega arith, drop-minus s)
overlap_from-prefix (suc l) s tag h = elim (Bool-cases (has_suffix s (take (suc l) tag))) [
  | inl y ↦ rw y (
    omega arith,
    subst (λ n. drop (length s - n) s ≡ take (suc l) tag) (length-take (suc l) tag h)
        (has_suffix-drop s (take (suc l) tag) y),
  )
  | inr n ↦ rw n (
    omega (arith, (overlap_from-prefix l s tag (omega (arith, h))).0),
    (overlap_from-prefix l s tag (omega (arith, h))).1,
  )
]

least : (a b : ℕ) → (if leb a b then a else b) ≤ a
least a b = ground arith

pub partial_tag_overlap-prefix :
    (s tag : Text)
    → 0 < length tag
    → (partial_tag_overlap s tag < length tag)
      × (drop (length s - partial_tag_overlap s tag) s ≡ take (partial_tag_overlap s tag) tag)
unfolding partial_tag_overlap
partial_tag_overlap-prefix s tag h =
    let b = least (length tag - 1) (length s) in
    let p =
      overlap_from-prefix (if leb (length tag - 1) (length s) then length tag - 1 else length s) s
        tag (omega (arith, b)) in
    (omega (arith, p.0, b, h), p.1)

least_second : (a b : ℕ) → (if leb a b then a else b) ≤ b
least_second a b = ground arith

pub partial_tag_overlap-length :
    (s tag : Text) → 0 < length tag → partial_tag_overlap s tag ≤ length s
unfolding partial_tag_overlap
partial_tag_overlap-length s tag h =
    let most = if leb (length tag - 1) (length s) then length tag - 1 else length s in
    let p = overlap_from-prefix most s tag (omega (arith, least (length tag - 1) (length s))) in
    omega (arith, p.0, least_second (length tag - 1) (length s))

-- No longer end of the buffer begins the tag.
overlap_from-longest :
    (l most : ℕ) (s tag : Text)
    → l ≤ most
    → has_suffix s (take l tag) ≡ true
    → l ≤ overlap_from most s tag
unfolding overlap_from
overlap_from-longest l zero s tag h e = omega (arith, h)
overlap_from-longest l (suc most) s tag h e =
    elim (Bool-cases (has_suffix s (take (suc most) tag))) [
      | inl y ↦ rw y h
      | inr n ↦ elim (dec_lt most l) [
        | yes q ↦ absurd (other (suc most) (omega (arith, q, h)) n)
        | no q ↦ rw n (overlap_from-longest l most s tag (omega (arith, q)) e)
      ]
    ]
  where
    other : (k : ℕ) → l ≡ k → has_suffix s (take k tag) ≡ false → ⊥
    other k q n = cc (n, q, e)

pub partial_tag_overlap-longest :
    (l : ℕ) (s tag : Text)
    → l < length tag
    → l ≤ length s
    → has_suffix s (take l tag) ≡ true
    → l ≤ partial_tag_overlap s tag
unfolding partial_tag_overlap
partial_tag_overlap-longest l s tag h k e =
    overlap_from-longest l (if leb (length tag - 1) (length s) then length tag - 1 else length s) s
      tag (within (length tag - 1) (length s) (omega (arith, h)) k) e
  where
    within : (a b : ℕ) → l ≤ a → l ≤ b → l ≤ (if leb a b then a else b)
    within a b p q = ground arith
