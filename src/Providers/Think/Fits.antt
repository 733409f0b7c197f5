-- ===== src/Providers/Think/Fits.antt =====
-- Where a tag may stand in a buffer, and the split of a buffer at the first place where one may begin.
use mathlib.Core.List.{append_assoc}
use claude_code_router.Common.{
  ℕ, zero, suc, ◌≡◌, ◌<◌, refl, sym, ap, ◌∙◌, Text, cut_prefix, Bool, true, false, ◌&&◌, ◌==◌,
  ==_iff, if◌then◌else◌, [], ◌∷◌, ◌++◌, Option, none, some, length, take, arith, Bool-cases, inl,
  inr,
}
use claude_code_router.Providers.Think.{find, before}

-- Nothing in the text speaks against the tag: one of the two is a prefix of the other.
abbrev pub fits : Text → Text → Bool
fits [] s = true
fits (a ∷ p) [] = true
fits (a ∷ p) (b ∷ s) = (a == b) && fits p s

-- The bytes before the first place that fits, and the rest.
abbrev pub lead : Text → Text → Text
lead tag [] = []
lead tag (b ∷ s) = let rest = lead tag s in if fits tag (b ∷ s) then [] else b ∷ rest

abbrev pub kept : Text → Text → Text
kept tag [] = []
kept tag (b ∷ s) = let rest = kept tag s in if fits tag (b ∷ s) then b ∷ s else rest

-- The tag fits nowhere in `pre`, which `x` follows.
abbrev pub Clear : Text → Text → Text → Type 0
Clear tag [] x = Unit
Clear tag (b ∷ pre) x = (fits tag (b ∷ pre ++ x) ≡ false) × Clear tag pre x

pub fits-append : (tag s y : Text) → fits tag s ≡ false → fits tag (s ++ y) ≡ false
fits-append [] s y e = absurd (cc)
fits-append (a ∷ p) [] y e = absurd (cc)
fits-append (a ∷ p) (b ∷ s) y e = elim (Bool-cases (a == b)) [
  | inl q ↦ rw q (fits-append p s y (rw q at e))
  | inr q ↦ rw q refl
]

pub fits-cut_prefix : (tag s : Text) → fits tag s ≡ false → cut_prefix tag s ≡ none
unfolding cut_prefix
fits-cut_prefix [] s e = absurd (cc)
fits-cut_prefix (a ∷ p) [] e = absurd (cc)
fits-cut_prefix (a ∷ p) (b ∷ s) e = elim (Bool-cases (a == b)) [
  | inl q ↦ rw q (fits-cut_prefix p s (rw q at e))
  | inr q ↦ rw q refl
]

pub fits-take : (n : ℕ) (tag : Text) → fits tag (take n tag) ≡ true
fits-take zero [] = refl
fits-take zero (a ∷ p) = refl
fits-take (suc n) [] = refl
fits-take (suc n) (a ∷ p) = rw (same a, fits-take n p) refl
  where
    same : (x : ℕ) → (x == x) ≡ true
    same x = ground arith

-- A text that fits and does not begin with the tag is a proper prefix of it.
pub fits-prefix :
    (tag s : Text)
    → fits tag s ≡ true
    → cut_prefix tag s ≡ none
    → (length s < length tag) × (s ≡ take (length s) tag)
unfolding cut_prefix
fits-prefix [] s e n = absurd (cc)
fits-prefix (a ∷ p) [] e n = (omega arith, refl)
fits-prefix (a ∷ p) (b ∷ s) e n = elim (Bool-cases (a == b)) [
  | inl q ↦
      let (h, k) = fits-prefix p s (rw q at e) (rw q at n) in
      (omega (arith, h), rw ((==_iff a b).0 q) (ap (λ t. b ∷ t) k))
  | inr q ↦ absurd (cc (rw q at e))
]

pub lead-kept : (tag s : Text) → lead tag s ++ kept tag s ≡ s
lead-kept tag [] = refl
lead-kept tag (b ∷ s) = elim (Bool-cases (fits tag (b ∷ s))) [
  | inl y ↦ rw y refl
  | inr n ↦ rw n (ap (λ t. b ∷ t) (lead-kept tag s))
]

pub lead-Clear : (tag s : Text) → Clear tag (lead tag s) (kept tag s)
lead-Clear tag [] = tt
lead-Clear tag (b ∷ s) = elim (Bool-cases (fits tag (b ∷ s))) [
  | inl y ↦ rw y tt
  | inr n ↦ rw n (ap (λ t. fits tag (b ∷ t)) (lead-kept tag s) ∙ n, lead-Clear tag s)
]

pub Clear-append : (tag pre x y : Text) → Clear tag pre x → Clear tag pre (x ++ y)
Clear-append tag [] x y c = tt
Clear-append tag (b ∷ pre) x y c = (
  ap (λ t. fits tag (b ∷ t)) (sym (append_assoc pre x y)) ∙ fits-append tag (b ∷ pre ++ x) y c.0,
  Clear-append tag pre x y c.1,
)

pub lead-append : (tag pre x : Text) → Clear tag pre x → lead tag (pre ++ x) ≡ pre ++ lead tag x
lead-append tag [] x c = refl
lead-append tag (b ∷ pre) x c = rw c.0 (ap (λ t. b ∷ t) (lead-append tag pre x c.1))

pub kept-append : (tag pre x : Text) → Clear tag pre x → kept tag (pre ++ x) ≡ kept tag x
kept-append tag [] x c = refl
kept-append tag (b ∷ pre) x c = rw c.0 (kept-append tag pre x c.1)

abbrev pub shift : Text → Option (Text × Text) → Option (Text × Text)
shift pre none = none
shift pre (some (s, rest)) = some (pre ++ s, rest)

shift-cons :
    (b : ℕ) (pre : Text) (o : Option (Text × Text)) → before b (shift pre o) ≡ shift (b ∷ pre) o
shift-cons b pre none = refl
shift-cons b pre (some (s, rest)) = refl

shift-nil : (o : Option (Text × Text)) → o ≡ shift [] o
shift-nil none = refl
shift-nil (some (s, rest)) = refl

pub find-Clear : (tag pre x : Text) → Clear tag pre x → find tag (pre ++ x) ≡ shift pre (find tag x)
unfolding find
find-Clear tag [] x c = shift-nil (find tag x)
find-Clear tag (b ∷ pre) x c =
    rw (fits-cut_prefix tag (b ∷ pre ++ x) c.0, find-Clear tag pre x c.1)
      (shift-cons b pre (find tag x))
