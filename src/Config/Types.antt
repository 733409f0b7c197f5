-- ===== src/Config/Types.antt =====
-- config/types.go. A Go map with string keys is an association list whose keys do not repeat; a
-- nil map is `none`.
use claude_code_router.Common.{ℕ, Text, text_eq, if◌then◌else◌, Option, none, some, List, [], ◌∷◌}

pub record ProviderConfig : Type 0 where
  pub base_url : Text
  pub convention : Text
  pub response_header_timeout_seconds : ℕ

pub record ModelProvider : Type 0 where
  pub provider : Text
  pub model_id : Text

pub record ModelConfig : Type 0 where
  pub alias : Text
  pub fallback_to : Text
  pub providers : List ModelProvider

pub record ServerConfig : Type 0 where
  pub client_port : ℕ
  pub admin_port : ℕ
  pub log_level : Text

abbrev pub Dict : Type 0 → Type 0
Dict V = List (Text × V)

-- m[k], with the Boolean of the two-valued read.
unfoldable pub lookup {ℓ} : {V : Type ℓ} → Text → List (Text × V) → Option V
lookup k [] = none
lookup k ((j, v) ∷ m) = if text_eq j k then some v else lookup k m

pub record Config : Type 0 where
  pub server : ServerConfig
  pub providers : Option (Dict ProviderConfig)
  pub models : List ModelConfig

-- The read of a map that may be nil.
abbrev pub entries {ℓ} : {V : Type ℓ} → Option (List (Text × V)) → List (Text × V)
entries none = []
entries (some m) = m

abbrev pub provider_of : Config → Text → Option ProviderConfig
provider_of c id = lookup id (entries c.providers)
