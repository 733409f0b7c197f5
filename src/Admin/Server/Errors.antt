-- ===== src/Admin/Server/Errors.antt =====
-- What a request to the dashboard that fails leaves behind.
use claude_code_router.Common.{
  ℕ, ◌≡◌, ◌⊎◌, ◌≤◌, refl, ap, inl, inr, Text, Bool, List, Option, none, some, Bool-cases,
}
use claude_code_router.Json.{ℤ, Json}
use claude_code_router.Config.Types.{Config}
use claude_code_router.Config.Manager.{Fault}
use claude_code_router.Router.Upstream.{Upstream, World}
use claude_code_router.Server.{known_method}
use claude_code_router.Admin.Loopback.{loopback_only}
use claude_code_router.Admin.Api.{State}
use claude_code_router.Admin.Api.Rejected.{handle_error}
use claude_code_router.Admin.RawConfig.{Write, broken_off, set_raw_config-error}
use claude_code_router.Admin.Server.{
  Endpoint, shows, changes, tries, restarts, updates, reads_raw, writes_raw, method_not_allowed,
  not_found, Answer, forbidden, static_file, outside, shown, status, raw, tested, Request, Outcome,
  route, perform, at_path, api, api, serve,
}

-- The answers that are errors.
abbrev pub Fails : Answer → Type 0
Fails forbidden = Unit
Fails static_file = ⊥
Fails outside = ⊥
Fails (shown v) = ⊥
Fails (status n) = 400 ≤ n
Fails (raw (n, bytes)) = 400 ≤ n
Fails (tested rs) = ⊥

module _ (split_host : Text → Option Text) (loopback : Text → Bool) (scan : Text → Option ℤ)
    (new_id : Option Text) (decode : Text → Option Json) (read : Text → Option Config)
    (encode : Config → Option Text) (fault : Fault) (writes : Write) (now : ℕ) (up : Upstream) where
  -- Nothing has changed, or a write of the raw configuration was broken off and only the bytes of the
  -- configuration's file are others.
  abbrev pub Spared : Endpoint → State → World → Outcome → Type 0
  Spared e s w o =
      ((o.state ≡ s) × (o.world ≡ w))
      ⊎ ((left : Text) × (e ≡ writes_raw)
          × (writes ≡ broken_off left)
          × (o.state ≡ record s { manager = record s.manager { file = some left } })
          × (o.world ≡ w))

  perform_error :
      (e : Endpoint) (body : Text) (s : State) (w : World)
      → let o =
          perform split_host loopback scan new_id decode read encode fault writes now up e body s
            w in
        Fails o.answer → Spared e s w o
  unfolding perform
  perform_error (shows v) body s w f = absurd f
  perform_error (changes a) body s w f = inl (handle_error decode read encode fault now a s f, refl)
  perform_error tries body s w f = absurd f
  perform_error restarts body s w f = absurd f
  perform_error updates body s w f = absurd f
  perform_error reads_raw body s w f = inl (refl, refl)
  perform_error writes_raw body s w f = elim (set_raw_config-error writes (some body) s.manager f) [
    | inl e ↦ inl (ap (λ m. record s { manager = m }) e, refl)
    | inr (left, b, e) ↦ inr (left, refl, b, ap (λ m. record s { manager = m }) e, refl)
  ]
  perform_error method_not_allowed body s w f = inl (refl, refl)
  perform_error not_found body s w f = inl (refl, refl)

  -- The configuration, its file, the tables and the upstreams are as they were, or the request was to
  -- replace the raw configuration, and the write was broken off.
  abbrev pub Unharmed : Request → State → World → Outcome → Type 0
  Unharmed r s w o =
      ((o.state ≡ s) × (o.world ≡ w))
      ⊎ ((path : List Text) × (left : Text) × (r.path ≡ some path)
          × (route scan new_id r.method r.body path ≡ writes_raw)
          × (writes ≡ broken_off left)
          × (o.state ≡ record s { manager = record s.manager { file = some left } })
          × (o.world ≡ w))

  at_path_error :
      (path : Option (List Text)) (r : Request) (s : State) (w : World)
      → r.path ≡ path
      → let o =
          at_path split_host loopback scan new_id decode read encode fault writes now up path r s
            w in
        Fails o.answer → Unharmed r s w o
  unfolding at_path
  at_path_error none r s w p f = absurd f
  at_path_error (some path) r s w p f =
      elim (perform_error (route scan new_id r.method r.body path) r.body s w f) [
        | inl k ↦ inl k
        | inr (left, e, b, k, l) ↦ inr (path, left, p, e, b, k, l)
      ]

  api_error :
      (r : Request) (s : State) (w : World)
      → let o = api split_host loopback scan new_id decode read encode fault writes now up r s w in
        Fails o.answer → Unharmed r s w o
  unfolding api
  api_error r s w f = elim (Bool-cases (known_method r.method)) [
    | inl y ↦ rw y (at_path_error r.path r s w refl (rw (y, api) at f))
    | inr n ↦ rw n (inl (refl, refl))
  ]

  -- A request to the dashboard that is answered with a status of 400 or more leaves the keys, the
  -- configuration, its file and the upstreams as they were: no edit is half done. The one exception is a
  -- request to replace the raw configuration whose write was broken off: it leaves a part of the new
  -- bytes in the file, and all else as it was.
  pub serve_error :
      (r : Request) (s : State) (w : World)
      → let o =
          serve split_host loopback scan new_id decode read encode fault writes now up r s w in
        Fails o.answer → Unharmed r s w o
  unfolding serve
  serve_error r s w f =
      elim (Bool-cases (loopback_only split_host loopback r.remote_addr r.forwarded_for)) [
        | inl y ↦ rw y (api_error r s w (rw (y, serve) at f))
        | inr n ↦ rw n (inl (refl, refl))
      ]
