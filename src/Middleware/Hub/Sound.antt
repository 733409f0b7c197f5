-- ===== src/Middleware/Hub/Sound.antt =====
-- What keeps a hub from panicking, and that every operation on it keeps it.
use claude_code_router.Common.{
  ◌∙◌, ltb→lt, ℕ, ◌≤◌, ◌<◌, ◌≡◌, refl, subst, sym, true, false, ◌==◌, ==_iff, ltb, if◌then◌else◌,
  List, [], ◌∷◌, ◌++◌, Option, none, some, length, length-append, Bool-cases, inl, inr, arith, All,
}
use claude_code_router.Middleware.Hub.{
  Phase, waiting, unlocked, gone, Hub, new_hub, subscribe, unsubscribe, send, send_all, publish,
  receive, received,
}
use claude_code_router.Middleware.Hub.Phases.{
  All-mono, selecting, set, Open, leaving, staying, waiting-Open,
}

module _ {A : Type 0} (capacity : ℕ) where
  -- Only channels whose subscriber has not begun to leave are subscribed, and subscribe has made them; a
  -- channel that is not closed by its subscriber is open; nobody leaves a channel that is not made yet;
  -- and no buffer is over capacity.
  pub record IsSound (at : ℕ → Phase) (h : Hub A) : Type 0 where
    pub waiting_subs : All (λ c. at c ≡ waiting) h.subs
    pub made : All (λ c. c < h.fresh) h.subs
    pub unmade : (c : ℕ) → h.fresh ≤ c → at c ≡ waiting
    pub open_until : (c : ℕ) → Open (at c) (h.closed c)
    pub bounded : (c : ℕ) → length (h.buffer c) ≤ capacity

  pub new_hub-IsSound : IsSound (λ c. waiting) (new_hub {A = A})
  unfolding new_hub
  new_hub-IsSound = record {
    waiting_subs = tt;
    made = tt;
    unmade = λ c h. refl;
    open_until = λ c. refl;
    bounded = λ c. omega arith;
  }

  subs-Open :
      (at : ℕ → Phase) (h : Hub A) (cs : List ℕ)
      → ((c : ℕ) → Open (at c) (h.closed c))
      → All (λ c. at c ≡ waiting) cs
      → All (λ c. h.closed c ≡ false) cs
  subs-Open at h [] o a = tt
  subs-Open at h (c ∷ cs) o a =
      (waiting-Open (at c) (h.closed c) a.0 (o c), subs-Open at h cs o a.1)

  pub subscribe-IsSound : (at : ℕ → Phase) (h : Hub A) → IsSound at h → IsSound at (subscribe h).0
  unfolding subscribe
  subscribe-IsSound at h s = record {
    waiting_subs = (s.unmade h.fresh (omega arith), s.waiting_subs);
    made = (omega arith, All-mono h.fresh h.subs s.made);
    unmade = λ c p. s.unmade c (omega arith);
    open_until = s.open_until;
    bounded = s.bounded;
  }

  beyond :
      (ch : ℕ) (p : Phase) (at : ℕ → Phase) (h : Hub A)
      → IsSound at h
      → ch < h.fresh
      → (c : ℕ) → h.fresh ≤ c
      → set ch p at c ≡ waiting
  beyond ch p at h s lt c le = elim (Bool-cases (c == ch)) [
    | inl q ↦ absurd (omega (arith, (==_iff c ch).0 q))
    | inr q ↦ rw q (s.unmade c le)
  ]

  -- What one step of leaving a channel leads to.
  abbrev pub Left : ℕ → (ℕ → Phase) → Option (Hub A × Phase) → Type 0
  Left ch at none = ⊥
  Left ch at (some (g, p)) = IsSound (set ch p at) g

  pub unsubscribe-Left :
      (ch : ℕ) (at : ℕ → Phase) (h : Hub A) (p : Phase)
      → at ch ≡ p
      → ch < h.fresh
      → IsSound at h
      → Left ch at (unsubscribe ch p h)
  unfolding unsubscribe
  unsubscribe-Left ch at h waiting q lt s = record {
    waiting_subs = leaving ch unlocked at h.subs s.waiting_subs;
    made = selecting h.fresh ch h.subs s.made;
    unmade = λ c le. beyond ch unlocked at h s lt c le;
    open_until = λ c. elim (Bool-cases (c == ch)) [
      | inl y ↦
          rw y (rw ((==_iff c ch).0 y) (waiting-Open (at ch) (h.closed ch) q (s.open_until ch)))
      | inr n ↦ rw n (s.open_until c)
    ];
    bounded = s.bounded;
  }
  unsubscribe-Left ch at h unlocked q lt s = rw (still_open (at ch) q (s.open_until ch)) (record {
    waiting_subs = staying ch gone at h.subs (λ e. unlocked-ne-waiting (sym q ∙ e)) s.waiting_subs;
    made = s.made;
    unmade = λ c le. beyond ch gone at h s lt c le;
    open_until =
        λ c. elim (Bool-cases (c == ch)) [ inl y ↦ rw y tt | inr n ↦ rw n (s.open_until c) ];
    bounded = s.bounded;
  })
    where
      unlocked-ne-waiting : unlocked ≡ waiting → ⊥
      unlocked-ne-waiting e = cc

      still_open : (p : Phase) → p ≡ unlocked → Open p (h.closed ch) → h.closed ch ≡ false
      still_open p e o = subst (λ x. Open x (h.closed ch)) e o
  unsubscribe-Left ch at h gone q lt s = record {
    waiting_subs = staying ch gone at h.subs (λ e. gone-ne-waiting (sym q ∙ e)) s.waiting_subs;
    made = s.made;
    unmade = λ c le. beyond ch gone at h s lt c le;
    open_until =
        λ c. elim (Bool-cases (c == ch)) [ inl y ↦ rw y tt | inr n ↦ rw n (s.open_until c) ];
    bounded = s.bounded;
  }
    where
      gone-ne-waiting : gone ≡ waiting → ⊥
      gone-ne-waiting e = cc

  abbrev Sent : (ℕ → Phase) → Hub A → Option (Hub A) → Type 0
  Sent at h none = ⊥
  Sent at h (some g) = IsSound at g × (g.subs ≡ h.subs) × (g.closed ≡ h.closed)

  send-Sent :
      (at : ℕ → Phase) (a : A) (ch : ℕ) (h : Hub A)
      → h.closed ch ≡ false
      → IsSound at h
      → Sent at h (send capacity a ch h)
  unfolding send
  send-Sent at a ch h o s = elim (Bool-cases (ltb (length (h.buffer ch)) capacity)) [
    | inl y ↦
        rw (o, y)
          (
            record {
              waiting_subs = s.waiting_subs;
              made = s.made;
              unmade = s.unmade;
              open_until = s.open_until;
              bounded = λ c. grown c y;
            },
            refl,
            refl,
          )
    | inr n ↦ rw (o, n) (s, refl, refl)
  ]
    where
      grown :
          (c : ℕ)
          → ltb (length (h.buffer ch)) capacity ≡ true
          → length (if c == ch then h.buffer c ++ a ∷ [] else h.buffer c) ≤ capacity
      grown c y = elim (Bool-cases (c == ch)) [
        | inl q ↦ rw q (
            rw ((==_iff c ch).0 q) (
              omega (
                arith,
                length-append (h.buffer ch) (a ∷ []),
                ltb→lt (length (h.buffer ch)) capacity y,
              )))
        | inr q ↦ rw q (s.bounded c)
      ]

  Sent-trans :
      (at : ℕ → Phase) (h g : Hub A)
      → g.subs ≡ h.subs
      → g.closed ≡ h.closed
      → (r : Option (Hub A)) → Sent at g r
      → Sent at h r
  Sent-trans at h g p q none x = x
  Sent-trans at h g p q (some k) (x, y, z) = (x, y ∙ p, z ∙ q)

  send_all-Sent :
      (at : ℕ → Phase) (a : A) (chs : List ℕ) (h : Hub A)
      → All (λ c. h.closed c ≡ false) chs
      → IsSound at h
      → Sent at h (send_all capacity a chs h)
  unfolding send_all
  send_all-Sent at a [] h o s = (s, refl, refl)
  send_all-Sent at a (ch ∷ chs) h o s =
      go (send capacity a ch h) (send-Sent at a ch h o.0 s) (λ g. send_all-Sent at a chs g)
    where
      go :
          (r : Option (Hub A))
          → Sent at h r
          → ((g : Hub A)
              → All (λ c. g.closed c ≡ false) chs
              → IsSound at g
              → Sent at g (send_all capacity a chs g))
          → Sent at h (elim r [ none ↦ none | some h' ↦ send_all capacity a chs h' ])
      go none x later = x
      go (some g) (sound, subs, closed) later =
          Sent-trans at h g subs closed _
            (later g (subst (λ k. All (λ c. k c ≡ false) chs) (sym closed) o.1) sound)

  -- In a sound hub publishing an event does not panic, and leaves a sound hub with the same subscribers
  -- and the same closed channels.
  pub publish-IsSound :
      (at : ℕ → Phase) (a : A) (h : Hub A)
      → IsSound at h
      → (g : Hub A) × (publish capacity a h ≡ some g)
        × IsSound at g
        × (g.subs ≡ h.subs)
        × (g.closed ≡ h.closed)
  unfolding publish
  publish-IsSound at a h s =
      go (send_all capacity a h.subs h)
        (send_all-Sent at a h.subs h (subs-Open at h h.subs s.open_until s.waiting_subs) s)
    where
      go :
          (r : Option (Hub A))
          → Sent at h r
          → (g : Hub A) × (r ≡ some g) × IsSound at g × (g.subs ≡ h.subs) × (g.closed ≡ h.closed)
      go none x = absurd x
      go (some g) (x, y, z) = (g, refl, x, y, z)

  received-le : (as' : List A) → length (received as').1 ≤ length as'
  unfolding received
  received-le [] = omega arith
  received-le (a ∷ as') = omega arith

  pub receive-IsSound :
      (at : ℕ → Phase) (ch : ℕ) (h : Hub A) → IsSound at h → IsSound at (receive ch h).1
  unfolding receive
  receive-IsSound at ch h s = record {
    waiting_subs = s.waiting_subs;
    made = s.made;
    unmade = s.unmade;
    open_until = s.open_until;
    bounded = bounded;
  }
    where
      bounded :
          (c : ℕ) → length (if c == ch then (received (h.buffer ch)).1 else h.buffer c) ≤ capacity
      bounded c = elim (Bool-cases (c == ch)) [
        | inl q ↦ rw q (omega (arith, received-le (h.buffer ch), s.bounded ch))
        | inr q ↦ rw q (s.bounded c)
      ]
