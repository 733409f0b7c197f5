-- ===== src/Middleware/Hub/Phases.antt =====
-- How far the subscribers have come, and the lists of subscribed channels when one of them goes on.
use claude_code_router.Common.{
  Bool, ℕ, suc, ◌<◌, ◌≡◌, false, not, ◌==◌, ==_iff, if◌then◌else◌, List, [], ◌∷◌, select,
  Bool-cases, inl, inr, arith, All,
}
use claude_code_router.Middleware.Hub.{Phase, waiting, unlocked, gone}

pub All-mono : (n : ℕ) (cs : List ℕ) → All (λ c. c < n) cs → All (λ c. c < suc n) cs
All-mono n [] a = tt
All-mono n (c ∷ cs) a = (omega (arith, a.0), All-mono n cs a.1)

pub selecting :
    (n ch : ℕ) (cs : List ℕ)
    → All (λ c. c < n) cs
    → All (λ c. c < n) (select (λ c. not (c == ch)) cs)
selecting n ch [] a = tt
selecting n ch (c ∷ cs) a = elim (Bool-cases (c == ch)) [
  | inl e ↦ rw e (selecting n ch cs a.1)
  | inr e ↦ rw e (a.0, selecting n ch cs a.1)
]

abbrev pub set : ℕ → Phase → (ℕ → Phase) → ℕ → Phase
set ch p at c = if c == ch then p else at c

-- A channel is open until its subscriber has closed it.
abbrev pub Open : Phase → Bool → Type 0
Open waiting b = b ≡ false
Open unlocked b = b ≡ false
Open gone b = Unit

pub leaving :
    (ch : ℕ) (p : Phase) (at : ℕ → Phase) (cs : List ℕ)
    → All (λ c. at c ≡ waiting) cs
    → All (λ c. set ch p at c ≡ waiting) (select (λ c. not (c == ch)) cs)
leaving ch p at [] a = tt
leaving ch p at (c ∷ cs) a = elim (Bool-cases (c == ch)) [
  | inl e ↦ rw e (leaving ch p at cs a.1)
  | inr e ↦ rw e (rw e a.0, leaving ch p at cs a.1)
]

pub staying :
    (ch : ℕ) (p : Phase) (at : ℕ → Phase) (cs : List ℕ)
    → (at ch ≡ waiting → ⊥)
    → All (λ c. at c ≡ waiting) cs
    → All (λ c. set ch p at c ≡ waiting) cs
staying ch p at [] ne a = tt
staying ch p at (c ∷ cs) ne a = elim (Bool-cases (c == ch)) [
  | inl e ↦ absurd (ne (rw ((==_iff c ch).0 e) at a.0))
  | inr e ↦ (rw e a.0, staying ch p at cs ne a.1)
]

pub waiting-Open : (p : Phase) (b : Bool) → p ≡ waiting → Open p b → b ≡ false
waiting-Open waiting b q o = o
waiting-Open unlocked b q o = o
waiting-Open gone b q o = absurd (gone-ne-waiting q)
  where
    gone-ne-waiting : gone ≡ waiting → ⊥
    gone-ne-waiting e = cc
