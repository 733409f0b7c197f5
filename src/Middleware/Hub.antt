-- ===== src/Middleware/Hub.antt =====
-- middleware/logger.go, Broadcaster, and the config-reload subscribers of admin/server.go, which are
-- the same hub with another capacity and signal. A channel is a number; its buffer and whether it is
-- closed are kept by the Go runtime, so they stand beside the subscriber set. What is done under the
-- mutex is one step, so Subscribe and Publish are one each; a channel is made before it is known to
-- anyone else. Unsubscribe is two: it closes the channel after Unlock. A step that makes Go panic is
-- `none`.
pub mod Phases
pub mod Sound
pub mod Safety
pub mod Delivery
use claude_code_router.Common.{
  ℕ, suc, ◌+◌, Bool, true, false, not, ◌==◌, ltb, if◌then◌else◌, List, [], ◌∷◌, ◌++◌, Option, none,
  some, length, select,
}

pub record Hub {ℓ} (A : Type ℓ) : Type ℓ where
  pub subs : List ℕ
  pub buffer : ℕ → List A
  pub closed : ℕ → Bool
  pub fresh : ℕ

-- How far the one call of Unsubscribe for a channel has come.
pub data Phase : Type 0 where
  waiting unlocked gone : Phase

-- The capacities of the two kinds of channel.
abbrev pub log_capacity : ℕ
log_capacity = 64

abbrev pub cfg_capacity : ℕ
cfg_capacity = 4

module _ {ℓ} {A : Type ℓ} where
  unfoldable pub new_hub : Hub A
  new_hub = record { subs = []; buffer = λ _. []; closed = λ _. false; fresh = 0 }

  -- A new channel, which no earlier call has returned.
  unfoldable pub subscribe : Hub A → Hub A × ℕ
  subscribe h = (record h { subs = h.fresh ∷ h.subs; fresh = suc h.fresh }, h.fresh)

  -- One step of Unsubscribe: the deletion under the mutex, then the close. Closing a closed channel
  -- panics.
  unfoldable pub unsubscribe : ℕ → Phase → Hub A → Option (Hub A × Phase)
  unsubscribe ch waiting h = some (record h { subs = select (λ c. not (c == ch)) h.subs }, unlocked)
  unsubscribe ch unlocked h =
      if h.closed ch
      then none
      else some (record h { closed = λ c. if c == ch then true else h.closed c }, gone)
  unsubscribe ch gone h = some (h, gone)

  -- The select with a default case: a full buffer drops the event. A send on a closed channel panics.
  send : (capacity : ℕ) → A → ℕ → Hub A → Option (Hub A)
  send capacity a ch h =
      if h.closed ch
      then none
      else if ltb (length (h.buffer ch)) capacity
      then some (record h { buffer = λ c. if c == ch then h.buffer c ++ a ∷ [] else h.buffer c })
      else some h

  send_all : (capacity : ℕ) → A → List ℕ → Hub A → Option (Hub A)
  unfolding send
  send_all capacity a [] h = some h
  send_all capacity a (ch ∷ chs) h = elim (send capacity a ch h) [
    | none ↦ none
    | some h' ↦ send_all capacity a chs h'
  ]

  unfoldable pub publish : (capacity : ℕ) → A → Hub A → Option (Hub A)
  unfolding send_all
  publish capacity a h = send_all capacity a h.subs h

  received : List A → Option A × List A
  received [] = (none, [])
  received (a ∷ as') = (some a, as')

  -- A subscriber takes the oldest event from its channel.
  pub receive : ℕ → Hub A → Option A × Hub A
  unfolding received
  receive ch h =
      let (a, rest) = received (h.buffer ch) in
      (a, record h { buffer = λ c. if c == ch then rest else h.buffer c })
