-- ===== src/Admin/Trial/Coverage.antt =====
-- What the test run of the dashboard covers.
use claude_code_router.Common.{
  ℕ, suc, ◌≡◌, Text, List, [], ◌∷◌, ◌++◌, Option, none, some, map, flatten,
}
use claude_code_router.Config.Types.{ModelProvider, ModelConfig, Config}
use claude_code_router.Router.Upstream.{Provider, Call, Upstream, World}
use claude_code_router.Admin.Trial.{
  TestResult, test_call, mask_key_display, or_keyless, provider_for,
}

-- One key to try: where it is configured, and the call that tries it.
pub record Try : Type 0 where
  pub model : Text
  pub entry : ModelProvider
  pub index : ℕ
  pub key : Text
  pub provider : Provider

abbrev pub call_of : Try → Call
call_of t = test_call t.provider t.entry t.key

-- A result with its outcome left out.
pub record Label : Type 0 where
  pub model : Text
  pub provider : Text
  pub model_id : Text
  pub key_index : ℕ
  pub key_masked : Text

abbrev pub label_of : Try → Label
label_of t = record {
  model = t.model;
  provider = t.entry.provider;
  model_id = t.entry.model_id;
  key_index = t.index;
  key_masked = mask_key_display t.key;
}

abbrev pub label : TestResult → Label
label r = record {
  model = r.model;
  provider = r.provider;
  model_id = r.model_id;
  key_index = r.key_index;
  key_masked = r.key_masked;
}

number_keys : Text → ModelProvider → Provider → ℕ → List Text → List Try
number_keys alias mp prov i [] = []
number_keys alias mp prov i (k ∷ ks) =
    record { model = alias; entry = mp; index = i; key = k; provider = prov }
    ∷ number_keys alias mp prov (suc i) ks

abbrev covered : Option Provider → (Provider → List Try) → List Try
covered none f = []
covered (some prov) f = f prov

-- The calls put in front of earlier ones, the last in front.
abbrev pub onto : List Call → List Call → List Call
onto [] earlier = earlier
onto (c ∷ cs) earlier = onto cs (c ∷ earlier)

module _ (up : Upstream) (keys_of : Text → List Text) (cfg : Config) where
  entry_tries : Text → ModelProvider → List Try
  entry_tries alias mp =
      covered (provider_for up keys_of cfg mp)
        (λ prov. number_keys alias mp prov 0 (or_keyless (keys_of mp.provider)))

  -- The keys to try: those of every provider of every model, in the order of the configuration.
  pub tries : List ModelConfig → List Try
  unfolding entry_tries number_keys
  tries [] = []
  tries (m ∷ ms) = flatten (map (entry_tries m.alias) m.providers) ++ tries ms

  -- The results carry the labels of the tries, and the calls are theirs, newest first.
  abbrev Covers : List Try → World → List TestResult × World → Type 0
  Covers ts w (rs, w') =
      (map label rs ≡ map label_of ts) × (w'.calls ≡ onto (map call_of ts) w.calls)
