-- ===== src/Middleware/Hub/Safety.antt =====
-- The hub never panics on a send, and its buffers never exceed their capacity.
use claude_code_router.Common.{
  ◌∙◌, ℕ, ◌≤◌, ◌<◌, ◌≡◌, refl, subst, sym, Option, none, some, length, some_inj,
}
use claude_code_router.Middleware.Hub.{
  Phase, waiting, Hub, new_hub, subscribe, unsubscribe, publish, receive,
}
use claude_code_router.Middleware.Hub.Phases.{set}
use claude_code_router.Middleware.Hub.Sound.{
  IsSound, new_hub-IsSound, subscribe-IsSound, Left, unsubscribe-Left, publish-IsSound,
  receive-IsSound,
}

-- The hub, and how far each channel's subscriber has come with leaving.
pub record System (A : Type 0) : Type 0 where
  pub hub : Hub A
  pub at : ℕ → Phase

abbrev pub begins : {A : Type 0} → System A
begins = record { hub = new_hub; at = λ c. waiting }

module _ {A : Type 0} (capacity : ℕ) where
  -- The steps of the subscribers and of the publishers, in any order: a subscriber leaves once, and
  -- other steps may come between its two.
  pub data Step (s : System A) : System A → Type 0 where
    subscribes : Step s (record s { hub = (subscribe s.hub).0 })
    leaves :
        (ch : ℕ) (g : Hub A) (p : Phase)
        → ch < s.hub.fresh
        → unsubscribe ch (s.at ch) s.hub ≡ some (g, p)
        → Step s (record { hub = g; at = set ch p s.at })
    publishes :
        (a : A) (g : Hub A) → publish capacity a s.hub ≡ some g → Step s (record s { hub = g })
    receives : (ch : ℕ) → Step s (record s { hub = (receive ch s.hub).1 })

  pub data Reach : System A → Type 0 where
    here : Reach begins
    next : {s t : System A} → Reach s → Step s t → Reach t

  Step-IsSound :
      {s t : System A} → Step s t → IsSound capacity s.at s.hub → IsSound capacity t.at t.hub
  Step-IsSound {s} subscribes h = subscribe-IsSound capacity s.at s.hub h
  Step-IsSound {s} (leaves ch g p lt e) h =
      subst (Left capacity ch s.at) e (unsubscribe-Left capacity ch s.at s.hub (s.at ch) refl lt h)
  Step-IsSound {s} (publishes a g e) h =
      let (k, p, sound, x, y) = publish-IsSound capacity s.at a s.hub h in
      subst (IsSound capacity s.at) (some_inj (sym p ∙ e)) sound
  Step-IsSound {s} (receives ch) h = receive-IsSound capacity s.at ch s.hub h

  Reach-IsSound : {s : System A} → Reach s → IsSound capacity s.at s.hub
  Reach-IsSound here = new_hub-IsSound capacity
  Reach-IsSound (next r st) = Step-IsSound st (Reach-IsSound r)

  Left-succeeds :
      (ch : ℕ) (at : ℕ → Phase) (o : Option (Hub A × Phase))
      → Left capacity ch at o
      → (g : Hub A) × (p : Phase) × (o ≡ some (g, p))
  Left-succeeds ch at none h = absurd h
  Left-succeeds ch at (some (g, p)) h = (g, p, refl)

  -- After any interleaving of subscribing, the two steps of leaving, publishing and receiving that begins
  -- with a new hub, where every subscriber leaves at most once: a publish never sends on a closed channel,
  -- whichever subscribers are between taking their channel out and closing it; the next step of leaving a
  -- channel never closes it a second time; and no buffer exceeds the capacity.
  pub reachable_sound :
      (s : System A) (a : A)
      → Reach s
      → ((g : Hub A) × (publish capacity a s.hub ≡ some g))
        × ((ch : ℕ)
            → ch < s.hub.fresh
            → (g : Hub A) × (p : Phase) × (unsubscribe ch (s.at ch) s.hub ≡ some (g, p)))
        × ((c : ℕ) → length (s.hub.buffer c) ≤ capacity)
  reachable_sound s a r =
      let h = Reach-IsSound r in
      let (g, p, x, y, z) = publish-IsSound capacity s.at a s.hub h in
      (
        (g, p),
        (λ ch lt.
            Left-succeeds ch s.at _ (unsubscribe-Left capacity ch s.at s.hub (s.at ch) refl lt h)),
        h.bounded,
      )
