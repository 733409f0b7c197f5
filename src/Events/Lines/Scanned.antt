-- ===== src/Events/Lines/Scanned.antt =====
-- What a scanner makes of lines that are written out, each with its newline.
use mathlib.Core.List.{append_assoc, append-nil}
use claude_code_router.Common.{
  ℕ, ◌≡◌, ◌<◌, refl, sym, ap, ◌∙◌, Text, false, ◌==◌, leb, List, [], ◌∷◌, ◌++◌, All, length, arith,
}
use claude_code_router.Events.Lines.{newline, split_lines, drop_cr, cut_long, scan_lines}

abbrev pub unlines : List Text → Text
unlines [] = []
unlines (l ∷ ls) = l ++ newline ∷ unlines ls

pub unlines-append : (a b : List Text) → unlines (a ++ b) ≡ unlines a ++ unlines b
unlines-append [] b = refl
unlines-append (l ∷ a) b =
    ap (λ t. l ++ newline ∷ t) (unlines-append a b)
    ∙ sym (append_assoc l (newline ∷ unlines a) (unlines b))

-- A line that a scanner with a buffer of `max` bytes yields as it is.
pub record IsLine (max : ℕ) (l : Text) : Type 0 where
  pub one : All (λ b. (b == newline) ≡ false) l
  pub kept : drop_cr l ≡ l
  pub fits : length l < max

split_lines-line :
    (l s : Text)
    → All (λ b. (b == newline) ≡ false) l
    → split_lines (l ++ newline ∷ s) ≡ (l ∷ (split_lines s).0, (split_lines s).1)
unfolding split_lines
split_lines-line [] s h = refl
split_lines-line (b ∷ l) s h = rw (h.0, split_lines-line l s h.1) refl

split_lines-unlines :
    (max : ℕ) (ls : List Text) → All (IsLine max) ls → split_lines (unlines ls) ≡ (ls, [])
unfolding split_lines
split_lines-unlines max [] h = refl
split_lines-unlines max (l ∷ ls) h =
    split_lines-line l (unlines ls) h.0.one ∙ rw (split_lines-unlines max ls h.1) refl

cut_long-fitting : (max : ℕ) (ls : List Text) → All (IsLine max) ls → cut_long max ls ≡ (ls, false)
unfolding cut_long
cut_long-fitting max [] h = refl
cut_long-fitting max (l ∷ ls) h =
    let short : leb max (length l) ≡ false = under max (length l) h.0.fits in
    rw (short, h.0.kept, cut_long-fitting max ls h.1) refl
  where
    under : (a b : ℕ) → b < a → leb a b ≡ false
    under a b q = ground arith

pub scan_lines-unlines :
    (max : ℕ) (ls : List Text) → All (IsLine max) ls → scan_lines max (unlines ls) ≡ (ls, false)
unfolding scan_lines
scan_lines-unlines max ls h =
    rw (split_lines-unlines max ls h, append-nil ls) (cut_long-fitting max ls h)
