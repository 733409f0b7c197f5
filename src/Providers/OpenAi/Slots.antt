-- ===== src/Providers/OpenAi/Slots.antt =====
-- The slice of tool slots: growing it and writing into it, as the owner of a block sees them.
use claude_code_router.Common.{
  Bool, zero, suc, ℕ, ◌≡◌, ◌<◌, refl, ◌∙◌, true, false, ◌==◌, if◌then◌else◌, List, [], ◌∷◌, Option,
  none, some, arith, Bool-cases, inl, inr, length, get_or, some_inj,
}
use claude_code_router.Providers.OpenAi.{grow, set_slot}
use claude_code_router.Providers.OpenAi.Protocol.{tool_owner, Distinct, tool_tag}
use claude_code_router.Providers.OpenAi.Blocks.{same_index}

pub grow-owner : (i : ℕ) (xs : List (Option ℕ)) (j : ℕ) → tool_owner (grow i xs) j ≡ tool_owner xs j
unfolding grow
grow-owner zero [] j = refl
grow-owner zero (x ∷ xs) j = refl
grow-owner (suc i) [] j = grow-owner i [] j
grow-owner (suc i) (none ∷ xs) j = grow-owner i xs j
grow-owner (suc i) (some k ∷ xs) j = rw (grow-owner i xs j) refl

pub grow-Distinct : (i : ℕ) (xs : List (Option ℕ)) → Distinct xs → Distinct (grow i xs)
unfolding grow
grow-Distinct zero [] d = tt
grow-Distinct zero (x ∷ xs) d = d
grow-Distinct (suc i) [] d = grow-Distinct i [] tt
grow-Distinct (suc i) (none ∷ xs) d = grow-Distinct i xs d
grow-Distinct (suc i) (some k ∷ xs) d = (grow-owner i xs k ∙ d.0, grow-Distinct i xs d.1)

pub grow-length : (i : ℕ) (xs : List (Option ℕ)) → i < length (grow i xs)
unfolding grow
grow-length zero [] = omega arith
grow-length zero (x ∷ xs) = omega arith
grow-length (suc i) [] = omega (arith, grow-length i [])
grow-length (suc i) (x ∷ xs) = omega (arith, grow-length i xs)

pub set_slot-owner :
    (i n : ℕ) (xs : List (Option ℕ)) (j : ℕ)
    → i < length xs
    → get_or xs i none ≡ none
    → tool_owner (set_slot i n xs) j ≡ (if n == j then some tool_tag else tool_owner xs j)
unfolding set_slot
set_slot-owner i n [] j h e = absurd (omega (arith, h))
set_slot-owner zero n (none ∷ xs) j h e = refl
set_slot-owner zero n (some k ∷ xs) j h e = absurd (some-ne-none e)
  where
    some-ne-none : some k ≡ none → ⊥
    some-ne-none p = cc
set_slot-owner (suc i) n (none ∷ xs) j h e = set_slot-owner i n xs j (omega (arith, h)) e
set_slot-owner (suc i) n (some k ∷ xs) j h e =
    rw (set_slot-owner i n xs j (omega (arith, h)) e) (swap (k == j) (n == j))
  where
    swap :
        (a b : Bool)
        → (if a then some tool_tag else (if b then some tool_tag else tool_owner xs j))
          ≡ (if b then some tool_tag else (if a then some tool_tag else tool_owner xs j))
    swap true true = refl
    swap true false = refl
    swap false true = refl
    swap false false = refl

pub owner-differs :
    (n k : ℕ) (xs : List (Option ℕ))
    → tool_owner (some k ∷ xs) n ≡ none
    → ((n == k) ≡ false) × (tool_owner xs n ≡ none)
owner-differs n k xs h = elim (Bool-cases (k == n)) [
  | inl y ↦ absurd (some-ne-none (rw y at h))
  | inr m ↦ (not_same m, rw m at h)
]
  where
    some-ne-none : some tool_tag ≡ none → ⊥
    some-ne-none p = cc

    not_same : (k == n) ≡ false → (n == k) ≡ false
    not_same m = ground (arith, m)

pub set_slot-Distinct :
    (i n : ℕ) (xs : List (Option ℕ))
    → i < length xs
    → get_or xs i none ≡ none
    → tool_owner xs n ≡ none
    → Distinct xs
    → Distinct (set_slot i n xs)
unfolding set_slot
set_slot-Distinct i n [] h e f d = absurd (omega (arith, h))
set_slot-Distinct zero n (none ∷ xs) h e f d = (f, d)
set_slot-Distinct zero n (some k ∷ xs) h e f d = (f', d.1)
  where
    f' : tool_owner xs n ≡ none
    f' = (owner-differs n k xs f).1
set_slot-Distinct (suc i) n (none ∷ xs) h e f d = set_slot-Distinct i n xs (omega (arith, h)) e f d
set_slot-Distinct (suc i) n (some k ∷ xs) h e f d = (
  set_slot-owner i n xs k (omega (arith, h)) e ∙ rw (owner-differs n k xs f).0 d.0,
  set_slot-Distinct i n xs (omega (arith, h)) e (owner-differs n k xs f).1 d.1,
)

pub slot-owner :
    (i b : ℕ) (xs : List (Option ℕ)) → get_or xs i none ≡ some b → tool_owner xs b ≡ some tool_tag
slot-owner i b [] e = absurd (none-ne-some e)
  where
    none-ne-some : none ≡ some b → ⊥
    none-ne-some p = cc
slot-owner zero b (none ∷ xs) e = absurd (none-ne-some e)
  where
    none-ne-some : none ≡ some b → ⊥
    none-ne-some p = cc
slot-owner zero b (some k ∷ xs) e = rw (some_inj e, same_index b) refl
slot-owner (suc i) b (none ∷ xs) e = slot-owner i b xs e
slot-owner (suc i) b (some k ∷ xs) e = elim (Bool-cases (k == b)) [
  | inl y ↦ rw y refl
  | inr n ↦ rw n (slot-owner i b xs e)
]
