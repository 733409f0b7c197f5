-- ===== src/Router/Chain/Routes.antt =====
-- Where a routed request went: a provider entry of a model that the fallbacks lead to.
use claude_code_router.Common.{
  subst, ℕ, zero, suc, ◌-◌, ◌<◌, ◌≡◌, refl, Text, List, [], ◌∷◌, some, Option-cases, Bool-cases,
  inl, inr, arith, before_byte, text_eq,
}
use mathlib.Core.List.{Memᴰ}
use claude_code_router.Config.Types.{
  ProviderConfig, ModelConfig, ModelProvider, Config, provider_of,
}
use claude_code_router.Router.Upstream.{Provider, Upstream, World, is_retryable}
use claude_code_router.Router.Attempt.{Tried}
use claude_code_router.Router.Chain.{
  FallbackResult, Result, routed, failed, Visit, returns, goes_on, conclude, hop, continue, settle,
  fall_back, attempt, visit, visit_all, chain, fallback_chain, find_model, new_provider,
}

-- `n` model fallbacks lead from the requested name to a configured model.
pub data Leads (cfg : Config) : ℕ → Text → ModelConfig → Type 0 where
  here :
      {model : Text} {m : ModelConfig}
      → find_model (before_byte b'[' model) cfg.models ≡ some m
      → Leads cfg zero model m
  there :
      {n : ℕ} {model : Text} {m last : ModelConfig}
      → find_model (before_byte b'[' model) cfg.models ≡ some m
      → Leads cfg n m.fallback_to last
      → Leads cfg (suc n) model last

-- The result names an entry of the model, whose provider is configured with a known convention.
pub record Entry (cfg : Config) (entries : List ModelProvider) (r : FallbackResult) : Type 0 where
  pub entry : ModelProvider
  pub listed : Memᴰ entry entries
  pub config : ProviderConfig
  pub provider : Provider
  pub configured : provider_of cfg entry.provider ≡ some config
  pub supported : new_provider config ≡ some provider
  pub routed_model : r.routed_model ≡ entry.model_id
  pub provider_id : r.provider ≡ entry.provider

pub record Route (cfg : Config) (levels : ℕ) (model : Text) (r : FallbackResult) : Type 0 where
  pub hops : ℕ
  pub bounded : hops < levels
  pub last : ModelConfig
  pub leads : Leads cfg hops model last
  pub entry : Entry cfg last.providers r

abbrev Named : Config → List ModelProvider → Visit → Type 0
Named cfg mps (returns (routed r) v) = Entry cfg mps r
Named cfg mps (returns (failed e) v) = Unit
Named cfg mps (goes_on f v) = Unit

abbrev Routes : Config → ℕ → Text → Result → Type 0
Routes cfg n model (routed r) = Route cfg n model r
Routes cfg n model (failed e) = Unit

Entry-recount :
    (cfg : Config) (mps : List ModelProvider) (r : FallbackResult) (f : ℕ)
    → Entry cfg mps r
    → Entry cfg mps (record r { fallback_count = f })
Entry-recount cfg mps r f e = record {
  entry = e.entry;
  listed = e.listed;
  config = e.config;
  provider = e.provider;
  configured = e.configured;
  supported = e.supported;
  routed_model = e.routed_model;
  provider_id = e.provider_id;
}

Named-cons :
    (cfg : Config) (mp : ModelProvider) (mps : List ModelProvider) (x : Visit)
    → Named cfg mps x
    → Named cfg (mp ∷ mps) x
Named-cons cfg mp mps (returns (routed r) v) e = record {
  entry = e.entry;
  listed = Memᴰ.tail e.listed;
  config = e.config;
  provider = e.provider;
  configured = e.configured;
  supported = e.supported;
  routed_model = e.routed_model;
  provider_id = e.provider_id;
}
Named-cons cfg mp mps (returns (failed x) v) e = tt
Named-cons cfg mp mps (goes_on f v) e = tt

conclude-Named :
    (cfg : Config) (mp : ModelProvider) (mps : List ModelProvider) (f : ℕ) (t : Tried) (v : World)
    (pc : ProviderConfig) (prov : Provider)
    → provider_of cfg mp.provider ≡ some pc
    → new_provider pc ≡ some prov
    → Named cfg (mp ∷ mps) (conclude mp f (t, v))
unfolding conclude
conclude-Named cfg mp mps f t v pc prov p q = elim (Option-cases t.error) [
  | inl e ↦
      rw (e, conclude)
        (record {
          entry = mp;
          listed = Memᴰ.head refl;
          config = pc;
          provider = prov;
          configured = p;
          supported = q;
          routed_model = refl;
          provider_id = refl;
        })
  | inr (x, e) ↦ elim (Bool-cases (is_retryable x)) [
    | inl y ↦ rw (e, conclude, y) tt
    | inr y ↦ rw (e, conclude, y) tt
  ]
]

module _ (up : Upstream) (keys_of : Text → List Text) (cfg : Config) where
  visit-Named :
      (mp : ModelProvider) (mps : List ModelProvider) (f : ℕ) (w : World)
      → Named cfg (mp ∷ mps) (visit up keys_of cfg mp f w)
  unfolding visit attempt
  visit-Named mp mps f w = elim (Option-cases (provider_of cfg mp.provider)) [
    | inl e ↦ rw (e, visit) tt
    | inr (pc, e) ↦ elim (Option-cases (new_provider pc)) [
      | inl n ↦ rw (e, visit, n, attempt) tt
      | inr (prov, n) ↦ rw (e, visit, n, attempt) (conclude-Named cfg mp mps f _ _ pc prov e n)
    ]
  ]

  continue-Named :
      (mp : ModelProvider) (mps : List ModelProvider) (x : Visit) (loop : ℕ → World → Visit)
      → Named cfg (mp ∷ mps) x
      → ((f : ℕ) (v : World) → Named cfg mps (loop f v))
      → Named cfg (mp ∷ mps) (continue x loop)
  unfolding continue
  continue-Named mp mps (returns r v) loop n step = n
  continue-Named mp mps (goes_on f v) loop n step = Named-cons cfg mp mps (loop f v) (step f v)

  visit_all-Named :
      (mps : List ModelProvider) (f : ℕ) (w : World)
      → Named cfg mps (visit_all up keys_of cfg mps f w)
  unfolding visit_all
  visit_all-Named [] f w = tt
  visit_all-Named (mp ∷ mps) f w =
      continue-Named mp mps _ _ (visit-Named mp mps f w) (λ g v. visit_all-Named mps g v)

  settle-Routes :
      (n : ℕ) (model : Text) (m : ModelConfig) (x : Visit) (rest : ℕ → World → Result × World)
      → find_model (before_byte b'[' model) cfg.models ≡ some m
      → Named cfg m.providers x
      → ((f : ℕ) (v : World) → Routes cfg (suc n) model (rest f v).0)
      → Routes cfg (suc n) model (settle x rest).0
  unfolding settle
  settle-Routes n model m (returns (routed r) v) rest e x step = record {
    hops = 0;
    bounded = omega arith;
    last = m;
    leads = here e;
    entry = x;
  }
  settle-Routes n model m (returns (failed y) v) rest e x step = tt
  settle-Routes n model m (goes_on f v) rest e x step = step f v

  hop-Routes :
      (n : ℕ) (model : Text) (m : ModelConfig) (f : ℕ) (r : Result) (v : World)
      → find_model (before_byte b'[' model) cfg.models ≡ some m
      → Routes cfg n m.fallback_to r
      → Routes cfg (suc n) model (hop f (r, v)).0
  unfolding hop
  hop-Routes n model m f (routed r) v e x = record {
    hops = suc x.hops;
    bounded = omega (arith, x.bounded);
    last = x.last;
    leads = there e x.leads;
    entry = Entry-recount cfg x.last.providers r _ x.entry;
  }
  hop-Routes n model m f (failed y) v e x = tt

  fall_back-Routes :
      (n : ℕ) (model : Text) (m : ModelConfig) (f : ℕ) (deeper : World → Result × World) (w : World)
      → find_model (before_byte b'[' model) cfg.models ≡ some m
      → Routes cfg n m.fallback_to (deeper w).0
      → Routes cfg (suc n) model (fall_back m.fallback_to f deeper w).0
  unfolding fall_back
  fall_back-Routes n model m f deeper w e x = elim (Bool-cases (text_eq m.fallback_to [])) [
    | inl y ↦ rw (y, fall_back) tt
    | inr y ↦ rw (y, fall_back) (hop-Routes n model m f _ _ e x)
  ]

  chain-Routes :
      (left : ℕ) (model : Text) (w : World)
      → Routes cfg left model (chain up keys_of cfg left model w).0
  unfolding chain
  chain-Routes zero model w = tt
  chain-Routes (suc left) model w =
      elim (Option-cases (find_model (before_byte b'[' model) cfg.models)) [
        | inl e ↦ rw (e, chain) tt
        | inr (m, e) ↦
            rw (e, chain)
              (settle-Routes left model m _ _ e (visit_all-Named m.providers 0 w)
                (λ f v. fall_back-Routes left model m f _ v e (chain-Routes left m.fallback_to v)))
      ]

-- A request that is routed from `depth` names a model and a provider of an entry of the first
-- configured model that at most 10 - depth fallbacks lead to, and that entry's provider is configured
-- with a convention that the program knows.
pub fallback_chain-Route :
    (up : Upstream) (keys_of : Text → List Text) (cfg : Config) (model : Text) (depth : ℕ)
    (w v : World) (r : FallbackResult)
    → fallback_chain up keys_of cfg model depth w ≡ (routed r, v)
    → Route cfg (11 - depth) model r
unfolding fallback_chain
fallback_chain-Route up keys_of cfg model depth w v r e =
    subst (λ p. Routes cfg (11 - depth) model p.0) e
      (chain-Routes up keys_of cfg (11 - depth) model w)
