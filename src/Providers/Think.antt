-- ===== src/Providers/Think.antt =====
-- providers/openai.go, thinkFilter: routing streamed content to text or thinking by <think> tags that
-- may be cut by the chunks.
pub mod Fuel
pub mod Overlap
pub mod Fits
pub mod Split
pub mod Chunks
pub mod Rounds
pub mod Segments
use claude_code_router.Common.{
  ℕ, zero, suc, ◌-◌, Text, codes, text_eq, cut_prefix, Bool, true, false, ◌&&◌, leb, if◌then◌else◌,
  [], ◌∷◌, ◌++◌, Option, none, some, length, take, drop,
}

pub record ThinkFilter : Type 0 where
  pub in_think : Bool
  pub partial : Text

abbrev pub open_tag : Text
open_tag = codes "<think>"

abbrev pub close_tag : Text
close_tag = codes "</think>"

abbrev before : ℕ → Option (Text × Text) → Option (Text × Text)
before b none = none
before b (some (s, t)) = some (b ∷ s, t)

abbrev here_or : Option Text → Option (Text × Text) → Option (Text × Text)
here_or none later = later
here_or (some rest) later = some ([], rest)

-- strings.Index with the two slices round the first occurrence.
pub find : Text → Text → Option (Text × Text)
find tag [] = here_or (cut_prefix tag []) none
find tag (b ∷ s) = let later = before b (find tag s) in here_or (cut_prefix tag (b ∷ s)) later

pub has_suffix : Text → Text → Bool
has_suffix s p = leb (length p) (length s) && text_eq (drop (length s - length p) s) p

-- The loop of partialTagOverlap from l downwards.
pub overlap_from : ℕ → Text → Text → ℕ
overlap_from zero s tag = 0
overlap_from (suc l) s tag =
    let rest = overlap_from l s tag in if has_suffix s (take (suc l) tag) then suc l else rest

unfoldable pub partial_tag_overlap : Text → Text → ℕ
unfolding overlap_from has_suffix
partial_tag_overlap s tag =
    let most = length tag - 1 in overlap_from (if leb most (length s) then most else length s) s tag

-- The results of process, and the filter that it leaves.
pub record Routed : Type 0 where
  pub text : Text
  pub think : Text
  pub filter : ThinkFilter

abbrev pub add : Bool → Text → Routed → Routed
add false s r = record r { text = r.text ++ s }
add true s r = record r { think = r.think ++ s }

abbrev pub tag_of : Bool → Text
tag_of false = open_tag
tag_of true = close_tag

abbrev pub flip : Bool → Bool
flip false = true
flip true = false

-- A buffer without the awaited tag: all but what may begin one goes out, and the loop ends.
pub keep_partial : Bool → Text → Routed → Routed
keep_partial m buf r =
    let n = length buf - partial_tag_overlap buf (tag_of m) in
    record (add m (take n buf) r) { filter = record { in_think = m; partial = drop n buf } }

-- The loop of process over `buf`; every round but the last takes a tag off it.
pub loop : ℕ → Bool → Text → Routed → Routed
loop zero m buf r = r
loop (suc fuel) m [] r = r
loop (suc fuel) m (b ∷ buf) r = elim (find (tag_of m) (b ∷ buf)) [
  | none ↦ keep_partial m (b ∷ buf) r
  | some (s, rest) ↦
      loop fuel (flip m) rest
        (record (add m s r) { filter = record { in_think = flip m; partial = [] } })
]

unfoldable pub process : ThinkFilter → Text → Routed
unfolding loop keep_partial find
process f chunk =
    let buf = f.partial ++ chunk in
    loop (suc (length buf)) f.in_think buf
      (record { text = []; think = []; filter = record { in_think = f.in_think; partial = [] } })
