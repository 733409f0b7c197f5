-- ===== src/Admin/Server/Access.antt =====
-- Which requests to the dashboard can change anything.
use claude_code_router.Common.{
  ℕ, ◌≡◌, ◌≢◌, ◌⊎◌, refl, sym, subst, inl, inr, Text, codes, text_eq, text_eq_iff, Bool, true,
  false, if◌then◌else◌, List, [], ◌∷◌, Option, none, some, Bool-cases, Option-cases,
}
use claude_code_router.Json.{ℤ, Json}
use claude_code_router.Config.Types.{Config}
use claude_code_router.Config.Manager.{Fault}
use claude_code_router.Router.Upstream.{Upstream, World}
use claude_code_router.Server.{known_method}
use claude_code_router.Admin.Loopback.{
  first_forwarded, loopback_only, loopback_only_iff, loopback_only_hostless,
}
use claude_code_router.Admin.Api.{State}
use claude_code_router.Admin.RawConfig.{Write}
use claude_code_router.Admin.Server.{
  Endpoint, shows, changes, tries, restarts, updates, reads_raw, writes_raw, method_not_allowed,
  not_found, Request, Outcome, one, usage_page, config_page, with_parameter, two, provider_page,
  route, perform, at_path, api, serve,
}

-- The endpoints that only read.
abbrev Reads : Endpoint → Type 0
Reads (shows v) = Unit
Reads (changes a) = ⊥
Reads tries = ⊥
Reads restarts = ⊥
Reads updates = ⊥
Reads reads_raw = Unit
Reads writes_raw = ⊥
Reads method_not_allowed = Unit
Reads not_found = Unit

either : (b : Bool) (x y : Endpoint) → Reads x → Reads y → Reads (if b then x else y)
either true x y p q = p
either false x y p q = q

module _ (scan : Text → Option ℤ) (new_id : Option Text) (body : Text) where
  one-Reads : (a : Text) → Reads (one scan new_id (codes "GET") body a)
  unfolding one text_eq
  one-Reads a = search either depth 14

  usage_page-Reads : (b : Text) → Reads (usage_page scan new_id (codes "GET") body b)
  unfolding usage_page text_eq
  usage_page-Reads b = search either

  config_page-Reads : (b : Text) → Reads (config_page scan new_id (codes "GET") body b)
  unfolding config_page text_eq
  config_page-Reads b = search either

  with_parameter-Reads :
      (b : Text) (e : Endpoint)
      → Reads e
      → Reads (with_parameter scan new_id (codes "GET") body b e)
  unfolding with_parameter
  with_parameter-Reads [] e h = tt
  with_parameter-Reads (c ∷ b) e h = h

  two-Reads : (a b : Text) → Reads (two scan new_id (codes "GET") body a b)
  unfolding two text_eq
  two-Reads a b = search (either, with_parameter-Reads, usage_page-Reads, config_page-Reads) depth 8

  route-Reads : (path : List Text) → Reads (route scan new_id (codes "GET") body path)
  unfolding route provider_page text_eq
  route-Reads [] = tt
  route-Reads (a ∷ []) = one-Reads a
  route-Reads (a ∷ b ∷ []) = two-Reads a b
  route-Reads (a ∷ b ∷ c ∷ []) = search (either, with_parameter-Reads)
  route-Reads (a ∷ b ∷ c ∷ d ∷ []) = search (either, with_parameter-Reads)
  route-Reads (a ∷ b ∷ c ∷ d ∷ e ∷ rest) = tt

module _ (split_host : Text → Option Text) (loopback : Text → Bool) (scan : Text → Option ℤ)
    (new_id : Option Text) (decode : Text → Option Json) (read : Text → Option Config)
    (encode : Config → Option Text) (fault : Fault) (writes : Write) (now : ℕ) (up : Upstream) where
  abbrev pub run : Request → State → World → Outcome
  run = serve split_host loopback scan new_id decode read encode fault writes now up

  abbrev pub Kept : State → World → Outcome → Type 0
  Kept s w o = (o.state ≡ s) × (o.world ≡ w)

  perform-Kept :
      (e : Endpoint) (body : Text) (s : State) (w : World)
      → Reads e
      → Kept s w (
          perform split_host loopback scan new_id decode read encode fault writes now up e body s w)
  unfolding perform
  perform-Kept (shows v) body s w h = (refl, refl)
  perform-Kept (changes a) body s w h = absurd h
  perform-Kept tries body s w h = absurd h
  perform-Kept restarts body s w h = absurd h
  perform-Kept updates body s w h = absurd h
  perform-Kept reads_raw body s w h = (refl, refl)
  perform-Kept writes_raw body s w h = absurd h
  perform-Kept method_not_allowed body s w h = (refl, refl)
  perform-Kept not_found body s w h = (refl, refl)

  at_path-Kept :
      (path : Option (List Text)) (r : Request) (s : State) (w : World)
      → r.method ≡ codes "GET"
      → Kept s w (
          at_path split_host loopback scan new_id decode read encode fault writes now up path r s w)
  unfolding at_path
  at_path-Kept none r s w g = (refl, refl)
  at_path-Kept (some path) r s w g = perform-Kept _ r.body s w (
      subst (λ m. Reads (route scan new_id m r.body path)) (sym g)
        (route-Reads scan new_id r.body path))

  api-Kept :
      (r : Request) (s : State) (w : World)
      → r.method ≡ codes "GET"
      → Kept s w (api split_host loopback scan new_id decode read encode fault writes now up r s w)
  unfolding api
  api-Kept r s w g = elim (Bool-cases (known_method r.method)) [
    | inl y ↦ rw y (at_path-Kept r.path r s w g)
    | inr n ↦ rw n (refl, refl)
  ]

  -- The peer is a loopback address, or its first forwarded address is.
  abbrev pub IsLocal : (remote_addr forwarded_for : Text) → Type 0
  IsLocal remote_addr forwarded_for =
      (host : Text) × (split_host remote_addr ≡ some host)
      × ((loopback host ≡ true)
          ⊎ ((forwarded_for ≢ [])
              × (loopback (first_forwarded split_host loopback forwarded_for) ≡ true)))

  local :
      (remote_addr forwarded_for : Text)
      → loopback_only split_host loopback remote_addr forwarded_for ≡ true
      → IsLocal remote_addr forwarded_for
  local remote_addr forwarded_for y = elim (Option-cases (split_host remote_addr)) [
    | inl n ↦
        absurd (cc (y, loopback_only_hostless split_host loopback remote_addr forwarded_for n))
    | inr (host, e) ↦
        (host, e, (loopback_only_iff split_host loopback remote_addr forwarded_for host e).0 y)
  ]

  -- A request to the dashboard leaves the keys, the configuration, its file and the upstreams alone,
  -- unless it is no GET and comes from a peer whose address, or the first entry of whose
  -- X-Forwarded-For header, is a loopback address.
  pub serve-Kept :
      (r : Request) (s : State) (w : World)
      → Kept s w (run r s w) ⊎ ((r.method ≢ codes "GET") × IsLocal r.remote_addr r.forwarded_for)
  unfolding serve
  serve-Kept r s w =
      elim (Bool-cases (loopback_only split_host loopback r.remote_addr r.forwarded_for)) [
        | inr n ↦ inl (rw n (refl, refl))
        | inl y ↦ elim (Bool-cases (text_eq r.method (codes "GET"))) [
          | inl g ↦ inl (rw y (api-Kept r s w ((text_eq_iff r.method (codes "GET")).0 g)))
          | inr g ↦ inr (
            (λ e. absurd (cc (g, (text_eq_iff r.method (codes "GET")).1 e))),
            local r.remote_addr r.forwarded_for y,
          )
        ]
      ]
