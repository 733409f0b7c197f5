-- ===== src/Admin/Loopback.antt =====
-- admin/server.go, loopbackOnly. `split_host` is the host of net.SplitHostPort, and `loopback` holds of
-- a text that net.ParseIP reads as a loopback address.
use claude_code_router.Common.{
  ◌≡◌, ◌↔◌, ◌≢◌, ◌⊎◌, refl, inl, inr, Text, before_byte, trim_space, Bool, true, false,
  if◌then◌else◌, [], ◌∷◌, Option, none, some, Bool-cases,
}

module _ (split_host : Text → Option Text) (loopback : Text → Bool) where
  -- The part of the header in front of the first comma.
  abbrev pub first_forwarded : Text → Text
  first_forwarded xff = trim_space (before_byte b',' xff)

  forwarded : Text → Bool
  forwarded [] = false
  forwarded (b ∷ xff) = loopback (first_forwarded (b ∷ xff))

  admits_host : Option Text → Text → Bool
  unfolding forwarded
  admits_host none xff = false
  admits_host (some host) xff = if loopback host then true else forwarded xff

  -- Whether the request is passed on; otherwise the answer is 403.
  unfoldable pub loopback_only : (remote_addr xff : Text) → Bool
  unfolding admits_host
  loopback_only remote_addr xff = admits_host (split_host remote_addr) xff

  forwarded_iff :
      (xff : Text) → (forwarded xff ≡ true) ↔ ((xff ≢ []) × (loopback (first_forwarded xff) ≡ true))
  unfolding forwarded
  forwarded_iff [] = ((λ e. absurd (false-ne-true e)), (λ e. absurd (e.0 refl)))
    where
      false-ne-true : false ≡ true → ⊥
      false-ne-true q = cc
  forwarded_iff (b ∷ xff) = ((λ e. ((λ q. cc), e)), (λ e. e.1))

  host_iff :
      (host xff : Text)
      → (admits_host (some host) xff ≡ true)
        ↔ ((loopback host ≡ true) ⊎ ((xff ≢ []) × (loopback (first_forwarded xff) ≡ true)))
  unfolding admits_host
  host_iff host xff = elim (Bool-cases (loopback host)) [
    | inl y ↦ rw y ((λ e. inl refl), (λ e. refl))
    | inr n ↦ rw n (
      (λ e. inr ((forwarded_iff xff).0 e)),
      (λ e. elim e [ inl q ↦ absurd (false-ne-true q) | inr q ↦ (forwarded_iff xff).1 q ]),
    )
  ]
    where
      false-ne-true : false ≡ true → ⊥
      false-ne-true q = cc

  -- A request whose peer address has a host is let through exactly when that host is a loopback address
  -- or the first entry of the client's own X-Forwarded-For header is one.
  pub loopback_only_iff :
      (remote_addr xff host : Text)
      → split_host remote_addr ≡ some host
      → (loopback_only remote_addr xff ≡ true)
        ↔ ((loopback host ≡ true) ⊎ ((xff ≢ []) × (loopback (first_forwarded xff) ≡ true)))
  unfolding loopback_only
  loopback_only_iff remote_addr xff host h = rw h (host_iff host xff)

  -- A peer address without a host is turned away.
  pub loopback_only_hostless :
      (remote_addr xff : Text)
      → split_host remote_addr ≡ none
      → loopback_only remote_addr xff ≡ false
  unfolding loopback_only admits_host
  loopback_only_hostless remote_addr xff h = rw h refl
