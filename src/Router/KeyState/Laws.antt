-- ===== src/Router/KeyState/Laws.antt =====
-- What the cooldowns and the cursor of router/fallback.go promise.
use claude_code_router.Common.{
  ℕ, ◌+◌, ◌-◌, ◌%◌, ◌<◌, ◌≡◌, refl, Text, text_eq, ltb, ◌==◌, if◌then◌else◌, none, some, Bool-cases,
  inl, inr, arith, ◌⊎◌,
}
use native.Mathlib.Nat.{mod-eq_of_lt, mod-lt}
use claude_code_router.Router.KeyState.{
  default_cooldown, KeyState, effective, is_rate_limited, mark_rate_limited, start_idx, advance_idx,
  new_key_state,
}

-- After a 429 at time t for `key`, at any later reading `key` is skipped exactly while less than the
-- upstream's Retry-After (or ten seconds, where there was none) has passed, and every other key is
-- limited exactly as before.
pub is_rate_limited-mark_rate_limited :
    (ks : KeyState) (key j : Text) (retry_after t now : ℕ)
    → is_rate_limited (mark_rate_limited ks key retry_after t) j now ≡ (
        if text_eq key j
        then ltb (now - t) (if retry_after == 0 then default_cooldown else retry_after)
        else is_rate_limited ks j now)
unfolding is_rate_limited mark_rate_limited
is_rate_limited-mark_rate_limited ks key j retry_after t now = ground arith

-- The start index is in range of a non-empty key list, whatever the cursor holds.
pub start_idx-lt : (ks : KeyState) (p : Text) (n : ℕ) → 0 < n → start_idx ks p n < n
unfolding start_idx
start_idx-lt ks p n h = ground arith

-- After a success with key `used` the next request for that provider starts one key further,
-- wrapping round at `n`, and the start of every other provider is unchanged.
pub start_idx-advance_idx :
    (ks : KeyState) (p q : Text) (used n : ℕ)
    → 0 < n
    → start_idx (advance_idx ks p used n) q n
      ≡ (if text_eq p q then (used + 1) % n else start_idx ks q n)
unfolding start_idx advance_idx
start_idx-advance_idx ks p q used n h = elim (Bool-cases (n == 0)) [
  | inl e ↦ absurd (ground arith)
  | inr e ↦ elim (Bool-cases (text_eq p q)) [
    | inl same ↦ rw (e, same) (mod-eq_of_lt (mod-lt (used + 1) h))
    | inr other ↦ rw (e, other)
  ]
]

-- Every key with a recorded 429 has a positive cooldown beside it.
abbrev pub IsConsistent : KeyState → Type 0
IsConsistent ks =
    (k : Text) → (ks.rated_at k ≡ none) ⊎ ((d : ℕ) × (ks.cooldown k ≡ some d) × (0 < d))

pub new_key_state-IsConsistent : IsConsistent new_key_state
unfolding new_key_state
new_key_state-IsConsistent k = inl refl

pub mark_rate_limited-IsConsistent :
    (ks : KeyState) (key : Text) (retry_after now : ℕ)
    → IsConsistent ks
    → IsConsistent (mark_rate_limited ks key retry_after now)
unfolding mark_rate_limited
mark_rate_limited-IsConsistent ks key retry_after now h k = elim (Bool-cases (text_eq key k)) [
  | inl e ↦ inr (effective retry_after, rw e, ground arith)
  | inr e ↦ rw e (h k)
]
