-- ===== src/Admin/Trial.antt =====
-- admin/api.go, handleTest with maskKeyDisplay: every configured key is tried once. The budgets of the
-- contexts lie in the upstreams' answers.
pub mod Coverage
use claude_code_router.Common.{
  ℕ, zero, suc, ◌+◌, ◌-◌, ◌/◌, Text, codes, Bool, true, false, leb, text_eq, if◌then◌else◌, List,
  [], ◌∷◌, ◌++◌, Option, none, some, length, take, drop, trim_right_byte,
}
use claude_code_router.Config.Types.{
  ProviderConfig, ModelProvider, ModelConfig, Config, provider_of,
}
use claude_code_router.Router.Upstream.{
  Provider, anthropic, openai, Call, Upstream, World, after, reply,
}
use claude_code_router.Providers.Errors.{Error}

-- The UTF-8 encodings of the bullet and of the ellipsis.
abbrev bullets : Text
bullets = repeated 8
  where
    repeated : ℕ → Text
    repeated zero = []
    repeated (suc n) = 0xE2 ∷ 0x80 ∷ 0xA2 ∷ repeated n

abbrev ellipsis : Text
ellipsis = 0xE2 ∷ 0x80 ∷ 0xA6 ∷ []

pub mask_key_display : Text → Text
mask_key_display [] = codes "(no key)"
mask_key_display (b ∷ k) =
    let n = length (b ∷ k) in
    if leb n 12 then bullets else take 8 (b ∷ k) ++ (ellipsis ++ drop (n - 4) (b ∷ k))

-- The error's text is kept as the error.
pub record TestResult : Type 0 where
  pub model : Text
  pub provider : Text
  pub model_id : Text
  pub key_index : ℕ
  pub key_masked : Text
  pub ok : Bool
  pub latency_ms : ℕ
  pub error : Option Error

-- The providers are built without a timeout of their own.
pub test_provider : ProviderConfig → Option Provider
test_provider pc =
    if text_eq pc.convention (codes "anthropic")
    then some (anthropic (trim_right_byte b'/' pc.base_url))
    else if text_eq pc.convention (codes "openai")
    then some (openai (trim_right_byte b'/' pc.base_url) 0)
    else none

abbrev pub or_keyless : List Text → List Text
or_keyless [] = [] ∷ []
or_keyless (k ∷ ks) = k ∷ ks

is_ok : Option Error → Bool
is_ok none = true
is_ok (some e) = false

abbrev pub test_call : Provider → ModelProvider → Text → Call
test_call prov mp key = record {
  provider = prov;
  model_id = mp.model_id;
  api_key = key;
  budget = none;
}

module _ (up : Upstream) (keys_of : Text → List Text) (cfg : Config) where
  test_key : Text → ModelProvider → Provider → ℕ → Text → World → TestResult × World
  unfolding mask_key_display is_ok
  test_key alias mp prov i key w =
      let c = test_call prov mp key in
      (
        record {
          model = alias;
          provider = mp.provider;
          model_id = mp.model_id;
          key_index = i;
          key_masked = mask_key_display key;
          ok = is_ok (reply up c w).error;
          latency_ms = (reply up c w).elapsed / 1_000_000;
          error = (reply up c w).error;
        },
        after up c w,
      )

  test_keys : Text → ModelProvider → Provider → ℕ → List Text → World → List TestResult × World
  unfolding test_key
  test_keys alias mp prov i [] w = ([], w)
  test_keys alias mp prov i (k ∷ ks) w =
      let (r, w1) = test_key alias mp prov i k w in
      let (rs, w2) = test_keys alias mp prov (suc i) ks w1 in (r ∷ rs, w2)

  -- A provider that is not configured, or whose convention is unknown, is passed over.
  test_entry : Text → ModelProvider → Option Provider → World → List TestResult × World
  unfolding test_keys
  test_entry alias mp none w = ([], w)
  test_entry alias mp (some prov) w = test_keys alias mp prov 0 (or_keyless (keys_of mp.provider)) w

  abbrev provider_for : ModelProvider → Option Provider
  provider_for mp = elim (provider_of cfg mp.provider) [ none ↦ none | some pc ↦ test_provider pc ]

  test_entries : Text → List ModelProvider → World → List TestResult × World
  unfolding test_entry
  test_entries alias [] w = ([], w)
  test_entries alias (mp ∷ mps) w =
      let (rs, w1) = test_entry alias mp (provider_for mp) w in
      let (ss, w2) = test_entries alias mps w1 in (rs ++ ss, w2)

  test_models : List ModelConfig → World → List TestResult × World
  unfolding test_entries
  test_models [] w = ([], w)
  test_models (m ∷ ms) w =
      let (rs, w1) = test_entries m.alias m.providers w in
      let (ss, w2) = test_models ms w1 in (rs ++ ss, w2)

  pub handle_test : World → List TestResult × World
  unfolding test_models
  handle_test w = test_models cfg.models w
