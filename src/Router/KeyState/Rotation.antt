-- ===== src/Router/KeyState/Rotation.antt =====
-- The order in which a rotation from a start index visits the keys: (start + i) % n for i < n.
use claude_code_router.Common.{ℕ, ◌+◌, ◌-◌, ◌%◌, ◌<◌, ◌≤◌, ◌≡◌, arith, ◌∙◌}
use native.Mathlib.Nat.{mod-eq_of_lt}
use native.Mathlib.Decide.{dec_lt}

wrap_below : (a n : ℕ) → a < n → a % n ≡ a
wrap_below a n h = mod-eq_of_lt h

wrap_above : (a n : ℕ) → n ≤ a → a < n + n → a % n ≡ a - n
wrap_above a n h k = grind arith

-- Within one rotation no index comes twice.
pub rotation_injective :
    (start n i j : ℕ) → start < n → i < n → j < n → (start + i) % n ≡ (start + j) % n → i ≡ j
rotation_injective start n i j hs hi hj e = elim (dec_lt (start + i) n) [
  | yes a ↦ elim (dec_lt (start + j) n) [
    | yes b ↦ omega (arith, wrap_below (start + i) n a, wrap_below (start + j) n b)
    | no b ↦
        omega
          (arith, wrap_below (start + i) n a, wrap_above (start + j) n (omega arith) (omega arith))
  ]
  | no a ↦ elim (dec_lt (start + j) n) [
    | yes b ↦
        omega
          (arith, wrap_above (start + i) n (omega arith) (omega arith), wrap_below (start + j) n b)
    | no b ↦ omega (
      arith,
      wrap_above (start + i) n (omega arith) (omega arith),
      wrap_above (start + j) n (omega arith) (omega arith),
    )
  ]
]

-- Every index of a key comes in the rotation.
pub rotation_complete :
    (start n k : ℕ) → start < n → k < n → (i : ℕ) × (i < n) × ((start + i) % n ≡ k)
rotation_complete start n k hs hk = elim (dec_lt k start) [
  | yes b ↦ (
    k + n - start,
    omega arith,
    wrap_above (start + (k + n - start)) n (omega arith) (omega arith) ∙ omega arith,
  )
  | no b ↦ (k - start, omega arith, wrap_below (start + (k - start)) n (omega arith) ∙ omega arith)
]
