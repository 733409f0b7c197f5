-- ===== src/Server/Guarded.antt =====
-- Who reaches the handlers of the client-facing server.
use claude_code_router.Common.{
  ℕ, ◌/◌, ◌≡◌, ◌≢◌, ◌⊎◌, inl, inr, refl, Text, false, List, [], Option, none, some,
}
use claude_code_router.Json.{Json}
use claude_code_router.Config.Types.{Config}
use claude_code_router.Db.{ClientKey, Database, get_key, revoke_key}
use claude_code_router.Middleware.Auth.{auth, extract_token}
use claude_code_router.Middleware.Auth.Access.{auth-cases, auth_iff, auth-revoke_key}
use claude_code_router.Router.OpenAiChunks.{Emitted}
use claude_code_router.Router.Upstream.{Upstream, World}
use claude_code_router.Server.{
  route, Route, not_found, method_not_allowed, matched, Endpoint, Incoming, Outcome, Answer,
  turned_away, listed, answered, admitted, routed, serve,
}

-- The client gets 401, 404 or 405, and nothing else has happened.
abbrev pub IsRefused : Answer → Type 0
IsRefused (turned_away status t) = (status ≡ 401) ⊎ ((status ≡ 404) ⊎ (status ≡ 405))
IsRefused (listed ms) = ⊥
IsRefused (answered a) = ⊥

abbrev pub IsTurnedAway : Database → World → Outcome → Type 0
IsTurnedAway d w o = IsRefused o.answer × (o.event ≡ none) × (o.database ≡ d) × (o.world ≡ w)

-- The request carries the key of a row that is not revoked.
abbrev pub HasKey : (Text → Text) → Database → Type 0
HasKey header d =
    (k : ClientKey) × (extract_token header ≢ [])
    × (get_key (extract_token header) d ≡ some k)
    × (k.revoked ≡ false)

module _ (decode : Text → Option Json) (encode : Json → Text) (render : Emitted → Text)
    (raw : Json → Text) (up : Upstream) (keys_of : Text → List Text) (cfg : Config) where
  admitted-Guarded :
      (e : Endpoint) (r : Incoming) (now : ℕ) (d : Database) (w : World)
      → HasKey r.header d
        ⊎ IsTurnedAway d w
            (admitted decode encode render raw up keys_of cfg e r.body (auth r.header now d) w)
  unfolding admitted
  admitted-Guarded e r now d w = elim (auth-cases r.header now d) [
    | inl (k, q) ↦ let (a, b, c) = (auth_iff r.header now d k).0 q in inl (k, a, b, c)
    | inr (inl q) ↦ inr (rw q (inl refl, refl, refl, refl))
    | inr (inr q) ↦ inr (rw q (inl refl, refl, refl, refl))
  ]

  -- Every request to the client-facing server carries the key of a row that is not revoked, or it gets
  -- 401, 404 or 405, no provider is called, nothing is written or published and the database stays.
  pub serve-Guarded :
      (r : Incoming) (d : Database) (w : World)
      → HasKey r.header d ⊎ IsTurnedAway d w (serve decode encode render raw up keys_of cfg r d w)
  unfolding serve routed
  serve-Guarded r d w = guarded (route r.method r.path)
    where
      guarded :
          (x : Route)
          → HasKey r.header d
            ⊎ IsTurnedAway d w (routed decode encode render raw up keys_of cfg x r d w)
      guarded not_found = inr (inr (inl refl), refl, refl, refl)
      guarded method_not_allowed = inr (inr (inr refl), refl, refl, refl)
      guarded (matched e) = admitted-Guarded e r (w.now / 1_000_000_000) d w

  -- Once a key is revoked, a request that carries it gets 401, 404 or 405 at every method and path, no
  -- provider is called for it, nothing is published and the database stays.
  pub serve-revoke_key :
      (r : Incoming) (d : Database) (w : World)
      → let e = revoke_key (extract_token r.header) d in
        IsTurnedAway e w (serve decode encode render raw up keys_of cfg r e w)
  serve-revoke_key r d w = elim (serve-Guarded r (revoke_key (extract_token r.header) d) w) [
    | inl (k, a, b, c) ↦
        absurd (auth-revoke_key r.header 0 d k ((auth_iff r.header 0 _ k).1 (a, b, c)))
    | inr t ↦ t
  ]
