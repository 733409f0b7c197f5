-- ===== src/Router/Attempt/Skips.antt =====
-- When tryProvider makes no HTTP request at all.
use native.Mathlib.Nat.{mod-lt}
use claude_code_router.Common.{
  ℕ, zero, suc, ◌+◌, ◌%◌, ◌≤◌, ◌<◌, ◌≡◌, refl, Text, true, leb, List, [], ◌∷◌, Option, none, some,
  length, get_or, Bool-cases, inl, inr, arith,
}
use claude_code_router.Providers.Errors.{Error, sentinel, is, rate_limit}
use claude_code_router.Router.KeyState.{is_rate_limited}
use claude_code_router.Router.Upstream.{
  openai, Provider, Upstream, World, is_retryable, has_header_timeout,
}
use claude_code_router.Router.Attempt.{failed, round, rounds, try_provider}

-- Every key is in its cooldown.
abbrev pub AllCooling : List Text → World → Type 0
AllCooling keys w = (i : ℕ) → i < length keys → is_rate_limited w.ks (get_or keys i []) w.now ≡ true

module _ (up : Upstream) (prov : Provider) (model_id : Text) (timeout deadline : ℕ) (p : Text)
    (keys : List Text) (w : World) where
  rounds_cooling :
      (start left i : ℕ) (last : Option Error) (f : ℕ)
      → 0 < length keys
      → AllCooling keys w
      → rounds up prov model_id timeout deadline p keys start (suc left) i last f w
        ≡ (failed f (sentinel rate_limit), w)
  unfolding rounds round
  rounds_cooling start zero i last f h all =
      rw (all ((start + i) % length keys) (mod-lt (start + i) h), round)
  rounds_cooling start (suc left) i last f h all =
      rw (all ((start + i) % length keys) (mod-lt (start + i) h), round)
        (rounds_cooling start left (suc i) (some (sentinel rate_limit)) f h all)

  rounds_late :
      (start left i : ℕ) (last : Option Error) (f : ℕ)
      → has_header_timeout prov ≡ true
      → deadline ≤ w.now
      → (rounds up prov model_id timeout deadline p keys start left i last f w).1 ≡ w
  unfolding rounds round is_retryable is
  rounds_late start zero i none f h late = refl
  rounds_late start zero i (some e) f h late = refl
  rounds_late start (suc left) i last f h late =
      let z : leb deadline w.now ≡ true = ground arith in
      elim (Bool-cases (is_rate_limited w.ks (get_or keys ((start + i) % length keys) []) w.now)) [
        | inl y ↦ rw (y, round) (rounds_late start left (suc i) _ f h late)
        | inr y ↦ rw (y, h, z) (rounds_late start left (suc i) _ (f + 1) h late)
      ]

-- A provider all of whose keys are cooling down is skipped: no call is made, nothing is written, no
-- failure is counted, and the result is the rate-limit error, so the next provider is tried.
pub try_provider_cooling :
    (up : Upstream) (prov : Provider) (model_id p key : Text) (keys : List Text) (timeout : ℕ)
    (w : World)
    → AllCooling (key ∷ keys) w
    → try_provider up prov model_id p (key ∷ keys) timeout w ≡ (failed 0 (sentinel rate_limit), w)
unfolding try_provider
try_provider_cooling up prov model_id p key keys timeout w all =
    rounds_cooling up prov model_id timeout (w.now + timeout) p (key ∷ keys) w _ (length keys) 0
      none 0 (omega arith) all

-- Once the shared budget of a provider's attempt has run out, the keys that are left are not called
-- and the world stays as it is.
pub rounds_no_late_call :
    (up : Upstream) (base_url : Text) (default : ℕ) (model_id p : Text) (keys : List Text)
    (timeout deadline start left i f : ℕ) (last : Option Error) (w : World)
    → deadline ≤ w.now
    → (rounds up (openai base_url default) model_id timeout deadline p keys start left i last f w).1
      ≡ w
rounds_no_late_call up base_url default model_id p keys timeout deadline start left i f last w
      late =
    rounds_late up (openai base_url default) model_id timeout deadline p keys w start left i last f
      refl late
