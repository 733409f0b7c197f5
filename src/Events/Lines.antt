-- ===== src/Events/Lines.antt =====
-- Splitting bytes into lines: at every newline, as the Write methods do, and as bufio.Scanner does.
pub mod Scanned
use claude_code_router.Common.{
  ℕ, Text, Bool, true, false, ◌==◌, leb, if◌then◌else◌, List, [], ◌∷◌, ◌++◌, length, ◌≡◌, refl,
  Bool-cases, inl, inr,
}

abbrev pub newline : ℕ
newline = 10

-- A byte in front of the pieces: it belongs to the first line, or to the rest.
abbrev pub prepend : ℕ → List Text × Text → List Text × Text
prepend b ([], rest) = ([], b ∷ rest)
prepend b (l ∷ ls, rest) = ((b ∷ l) ∷ ls, rest)

abbrev pub close : List Text × Text → List Text × Text
close (ls, rest) = ([] ∷ ls, rest)

-- The complete lines, without their newlines, and what follows the last newline.
unfoldable pub split_lines : Text → List Text × Text
split_lines [] = ([], [])
split_lines (b ∷ s) =
    let rest = split_lines s in if b == newline then close rest else prepend b rest

-- Splitting in two steps, the rest of the first part in front of the second.
abbrev join_splits : List Text × Text → Text → List Text × Text
join_splits (ls, rest) q = (ls ++ (split_lines (rest ++ q)).0, (split_lines (rest ++ q)).1)

prepend-join :
    (b : ℕ) (p : List Text × Text) (q : Text)
    → (b == newline) ≡ false
    → prepend b (join_splits p q) ≡ join_splits (prepend b p) q
unfolding split_lines
prepend-join b ([], rest) q h = rw h
prepend-join b (l ∷ ls, rest) q h = refl

close-join : (p : List Text × Text) (q : Text) → close (join_splits p q) ≡ join_splits (close p) q
close-join (ls, rest) q = refl

pub split_lines-append : (p q : Text) → split_lines (p ++ q) ≡ join_splits (split_lines p) q
unfolding split_lines
split_lines-append [] q = refl
split_lines-append (b ∷ s) q = elim (Bool-cases (b == newline)) [
  | inl e ↦ rw (e, split_lines-append s q) (close-join (split_lines s) q)
  | inr e ↦ rw (e, split_lines-append s q) (prepend-join b (split_lines s) q e)
]

-- dropCR: one carriage return before the newline.
unfoldable pub drop_cr : Text → Text
drop_cr [] = []
drop_cr (b ∷ []) = if b == 13 then [] else b ∷ []
drop_cr (a ∷ b ∷ s) = a ∷ drop_cr (b ∷ s)

-- The tokens up to the first line that does not fit the buffer; `true` where there was one.
pub cut_long : ℕ → List Text → List Text × Bool
cut_long max [] = ([], false)
cut_long max (l ∷ ls) =
    let rest = cut_long max ls in
    if leb max (length l) then ([], true) else (drop_cr l ∷ rest.0, rest.1)

abbrev last_token : Text → List Text
last_token [] = []
last_token (b ∷ s) = (b ∷ s) ∷ []

-- bufio.Scanner with ScanLines and a buffer of `max` bytes over the whole text.
pub scan_lines : ℕ → Text → List Text × Bool
unfolding cut_long drop_cr split_lines
scan_lines max s = let (ls, rest) = split_lines s in cut_long max (ls ++ last_token rest)
