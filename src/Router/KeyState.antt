-- ===== src/Router/KeyState.antt =====
-- router/fallback.go: the 429 cooldowns of the keys and the round-robin cursor of each provider.
-- Times and durations are nanoseconds; `now` is the reading of time.Now, which never falls. The
-- mutex makes every function one atomic step. A Go map is a function into `Option`.
pub mod Laws
pub mod Rotation
use claude_code_router.Common.{
  ℕ, ◌+◌, ◌-◌, ◌*◌, ◌%◌, Text, text_eq, Bool, true, false, ltb, ◌==◌, if◌then◌else◌, Option, none,
  some,
}

abbrev pub default_cooldown : ℕ
default_cooldown = 10 * 1_000_000_000

-- m[k] = v
abbrev pub update {ℓ} : {V : Type ℓ} → (Text → Option V) → Text → V → Text → Option V
update m k v j = if text_eq k j then some v else m j

-- The read m[k], which yields the zero value where the key is missing.
abbrev pub or_zero : Option ℕ → ℕ
or_zero none = 0
or_zero (some n) = n

pub record KeyState : Type 0 where
  pub rated_at : Text → Option ℕ
  pub cooldown : Text → Option ℕ
  pub next_idx : Text → Option ℕ

unfoldable pub new_key_state : KeyState
new_key_state = record { rated_at = λ _. none; cooldown = λ _. none; next_idx = λ _. none }

abbrev effective : ℕ → ℕ
effective d = if d == 0 then default_cooldown else d

-- The body of isRateLimited, once the map ratedAt is read.
cooling : Option ℕ → ℕ → ℕ → Bool
cooling none d now = false
cooling (some t) d now = ltb (now - t) (effective d)

unfoldable pub is_rate_limited : KeyState → Text → ℕ → Bool
unfolding cooling
is_rate_limited ks key now = cooling (ks.rated_at key) (or_zero (ks.cooldown key)) now

unfoldable pub mark_rate_limited : KeyState → Text → ℕ → ℕ → KeyState
mark_rate_limited ks key retry_after now = record ks {
  rated_at = update ks.rated_at key now;
  cooldown = update ks.cooldown key (effective retry_after);
}

unfoldable pub start_idx : KeyState → Text → ℕ → ℕ
start_idx ks provider_id n = if n == 0 then 0 else or_zero (ks.next_idx provider_id) % n

unfoldable pub advance_idx : KeyState → Text → ℕ → ℕ → KeyState
advance_idx ks provider_id used n =
    if n == 0 then ks else record ks { next_idx = update ks.next_idx provider_id ((used + 1) % n) }
