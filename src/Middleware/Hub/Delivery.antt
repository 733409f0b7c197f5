-- ===== src/Middleware/Hub/Delivery.antt =====
-- What a published event does to each channel.
use claude_code_router.Common.{
  Option-cases, ℕ, zero, suc, ◌≡◌, true, false, ◌==◌, ==_iff, ltb, if◌then◌else◌, List, [], ◌∷◌,
  ◌++◌, none, some, length, Bool-cases, inl, inr, some_inj, sym, ap, ◌∙◌,
}
use claude_code_router.Middleware.Hub.{Hub, send, send_all, publish}

module _ {A : Type 0} (capacity : ℕ) (a : A) where
  -- A non-blocking send: the event goes to the end of a buffer with room, and is dropped otherwise.
  abbrev pub offer : List A → List A
  offer q = if ltb (length q) capacity then q ++ a ∷ [] else q

  abbrev pub offers : ℕ → List A → List A
  offers zero q = q
  offers (suc n) q = offers n (offer q)

  -- How often a channel stands in a list.
  abbrev pub times : ℕ → List ℕ → ℕ
  times c [] = 0
  times c (ch ∷ chs) = let rest = times c chs in if c == ch then suc rest else rest

  send_buffer :
      (ch c : ℕ) (h g : Hub A)
      → send capacity a ch h ≡ some g
      → g.buffer c ≡ (if c == ch then offer (h.buffer c) else h.buffer c)
  unfolding send
  send_buffer ch c h g e = elim (Bool-cases (h.closed ch)) [
    | inl y ↦ absurd (none-ne-some (rw y at e))
    | inr n ↦ elim (Bool-cases (ltb (length (h.buffer ch)) capacity)) [
      | inl y ↦ ap (λ k. k.buffer c) (some_inj (sym (rw (n, y) at e))) ∙ roomy y
      | inr y ↦ ap (λ k. k.buffer c) (some_inj (sym (rw (n, y) at e))) ∙ full y
    ]
  ]
    where
      none-ne-some : none ≡ some g → ⊥
      none-ne-some q = cc

      roomy :
          ltb (length (h.buffer ch)) capacity ≡ true
          → (if c == ch then h.buffer c ++ a ∷ [] else h.buffer c)
            ≡ (if c == ch then offer (h.buffer c) else h.buffer c)
      roomy y = elim (Bool-cases (c == ch)) [
        | inl q ↦ rw q (rw ((==_iff c ch).0 q, y))
        | inr q ↦ rw q
      ]

      full :
          ltb (length (h.buffer ch)) capacity ≡ false
          → h.buffer c ≡ (if c == ch then offer (h.buffer c) else h.buffer c)
      full y = elim (Bool-cases (c == ch)) [
        | inl q ↦ rw q (rw ((==_iff c ch).0 q, y))
        | inr q ↦ rw q
      ]

  send_all_buffer :
      (chs : List ℕ) (c : ℕ) (h g : Hub A)
      → send_all capacity a chs h ≡ some g
      → g.buffer c ≡ offers (times c chs) (h.buffer c)
  unfolding send_all
  send_all_buffer [] c h g e = ap (λ k. k.buffer c) (some_inj (sym e))
  send_all_buffer (ch ∷ chs) c h g e = elim (Option-cases (send capacity a ch h)) [
    | inl n ↦ absurd (none-ne-some (rw (n, send_all) at e))
    | inr (k, n) ↦
        send_all_buffer chs c k g (rw (n, send_all) at e)
        ∙ ap (offers (times c chs)) (send_buffer ch c h k n)
        ∙ counted
  ]
    where
      none-ne-some : none ≡ some g → ⊥
      none-ne-some q = cc

      counted :
          offers (times c chs) (if c == ch then offer (h.buffer c) else h.buffer c)
          ≡ offers (times c (ch ∷ chs)) (h.buffer c)
      counted = elim (Bool-cases (c == ch)) [ inl q ↦ rw q | inr q ↦ rw q ]

-- A published event is offered to the buffer of a channel as often as the channel is subscribed: a
-- channel that is not subscribed keeps its buffer, and one that is subscribed once gets the event
-- behind what it holds, or loses it where the buffer is full.
pub publish_buffer :
    {A : Type 0} (capacity : ℕ) (a : A) (c : ℕ) (h g : Hub A)
    → publish capacity a h ≡ some g
    → g.buffer c ≡ offers capacity a (times capacity a c h.subs) (h.buffer c)
unfolding publish
publish_buffer capacity a c h g e = send_all_buffer capacity a h.subs c h g e
