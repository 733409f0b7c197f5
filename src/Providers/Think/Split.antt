-- ===== src/Providers/Think/Split.antt =====
-- The end that process keeps back begins at the first place where the tag may begin.
use mathlib.Core.List.{append_assoc, append-nil}
use claude_code_router.Common.{
  ℕ, zero, suc, ◌+◌, ◌-◌, ◌≡◌, ◌<◌, ◌≤◌, refl, sym, ap, subst, ◌∙◌, Text, text_eq_refl, cut_prefix,
  true, leb, [], ◌∷◌, ◌++◌, Option, none, some, length, length-append, take, drop, arith,
  Bool-cases, inl, inr,
}
use claude_code_router.Providers.Think.{find, before, here_or, has_suffix, partial_tag_overlap}
use claude_code_router.Providers.Think.Overlap.{
  partial_tag_overlap-prefix, partial_tag_overlap-length, partial_tag_overlap-longest,
}
use claude_code_router.Providers.Think.Fits.{
  fits, lead, kept, Clear, fits-prefix, fits-take, lead-append, kept-append,
}

drop-append : (p x : Text) → drop (length p) (p ++ x) ≡ x
drop-append [] x = refl
drop-append (b ∷ p) x = drop-append p x

has_suffix-append : (p x : Text) → has_suffix (p ++ x) x ≡ true
unfolding has_suffix
has_suffix-append p x =
    let n : length (p ++ x) - length x ≡ length p = omega (arith, length-append p x) in
    let l : leb (length x) (length (p ++ x)) ≡ true =
      long (length x) (length (p ++ x)) (omega (arith, length-append p x)) in
    rw (l, n, drop-append p x, text_eq_refl x) refl
  where
    long : (a b : ℕ) → a ≤ b → leb a b ≡ true
    long a b h = ground arith

find-here : (tag x : Text) → find tag x ≡ none → cut_prefix tag x ≡ none
unfolding find
find-here tag [] e = here (cut_prefix tag []) e
  where
    here : (o : Option Text) → here_or o none ≡ none → o ≡ none
    here none q = refl
    here (some r) q = absurd (cc)
find-here tag (b ∷ s) e = here (cut_prefix tag (b ∷ s)) e
  where
    here : (o : Option Text) → here_or o (before b (find tag s)) ≡ none → o ≡ none
    here none q = refl
    here (some r) q = absurd (cc)

find-later : (tag x : Text) (b : ℕ) → find tag (b ∷ x) ≡ none → find tag x ≡ none
unfolding find
find-later tag x b e = later (cut_prefix tag (b ∷ x)) (find tag x) e
  where
    later : (o : Option Text) (q : Option (Text × Text)) → here_or o (before b q) ≡ none → q ≡ none
    later o none h = refl
    later none (some (s, r)) h = absurd (cc)
    later (some t) (some (s, r)) h = absurd (cc)

find-none : (tag p x : Text) → find tag (p ++ x) ≡ none → cut_prefix tag x ≡ none
find-none tag [] x e = find-here tag x e
find-none tag (b ∷ p) x e = find-none tag p x (find-later tag (p ++ x) b e)

longest-Clear :
    (s tag p pre k : Text)
    → s ≡ p ++ (pre ++ k)
    → find tag s ≡ none
    → partial_tag_overlap s tag ≤ length k
    → Clear tag pre k
longest-Clear s tag p [] k e f h = tt
longest-Clear s tag p (b ∷ pre) k e f h = (
  elim (Bool-cases (fits tag (b ∷ pre ++ k))) [
    | inr n ↦ n
    | inl y ↦
        let x = b ∷ pre ++ k in
        let (short, begins) =
          fits-prefix tag x y (find-none tag p x (subst (λ t. find tag t ≡ none) e f)) in
        let ends : has_suffix s x ≡ true =
          subst (λ t. has_suffix t x ≡ true) (sym e) (has_suffix-append p x) in
        let long : length s ≡ length p + length x = ap length e ∙ length-append p x in
        let l =
          partial_tag_overlap-longest (length x) s tag short (omega (arith, long))
            (subst (λ t. has_suffix s t ≡ true) begins ends) in
        absurd (omega (arith, l, h, length-append pre k))
  ],
  longest-Clear s tag (p ++ b ∷ []) pre k
      (subst (λ t. s ≡ t) (sym (append_assoc p (b ∷ []) (pre ++ k))) e) f h,
)

take-drop : (n : ℕ) (s : Text) → take n s ++ drop n s ≡ s
take-drop zero s = refl
take-drop (suc n) [] = refl
take-drop (suc n) (b ∷ s) = ap (λ t. b ∷ t) (take-drop n s)

length-drop : (n : ℕ) (s : Text) → n ≤ length s → length (drop n s) + n ≡ length s
length-drop zero s h = omega arith
length-drop (suc n) [] h = absurd (omega (arith, h))
length-drop (suc n) (b ∷ s) h = omega (arith, length-drop n s (omega (arith, h)))

lead-fits : (tag k : Text) → fits tag k ≡ true → lead tag k ≡ []
lead-fits tag [] y = refl
lead-fits tag (b ∷ k) y = rw y refl

kept-fits : (tag k : Text) → fits tag k ≡ true → kept tag k ≡ k
kept-fits tag [] y = refl
kept-fits tag (b ∷ k) y = rw y refl

-- A buffer without the tag is cut before the first place where the tag may begin.
pub split_off :
    (tag s : Text)
    → 0 < length tag
    → find tag s ≡ none
    → let n = length s - partial_tag_overlap s tag in
      (take n s ≡ lead tag s) × (drop n s ≡ kept tag s)
split_off tag s h f =
    let o = partial_tag_overlap s tag in
    let n = length s - o in
    let pre = take n s in
    let k = drop n s in
    let fine : fits tag k ≡ true =
      subst (λ t. fits tag t ≡ true) (sym (partial_tag_overlap-prefix s tag h).1)
        (fits-take o tag) in
    let long = length-drop n s (omega arith) in
    let c =
      longest-Clear s tag [] pre k (sym (take-drop n s)) f
        (omega (arith, long, partial_tag_overlap-length s tag h)) in
    (
      subst (λ t. pre ≡ lead tag t) (take-drop n s)
          (sym
            (lead-append tag pre k c ∙ ap (λ t. pre ++ t) (lead-fits tag k fine) ∙ append-nil pre)),
      subst (λ t. k ≡ kept tag t) (take-drop n s)
          (sym (kept-append tag pre k c ∙ kept-fits tag k fine)),
    )
