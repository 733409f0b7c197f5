-- ===== src/Admin/Views.antt =====
-- admin/api.go: the handlers that only show something, as the values that they print. A query's
-- parameter is a text, empty where it is missing.
use claude_code_router.Common.{
  ℕ, suc, zero, ◌+◌, ◌*◌, ◌-◌, ◌/◌, Text, codes, text_eq, Bool, ◌&&◌, leb, ltb, if◌then◌else◌, List,
  [], ◌∷◌, Option, none, some, map,
}
use claude_code_router.Json.{ℤ, pos, negsuc}
use claude_code_router.Json.Dict.{text_lt}
use claude_code_router.Config.Types.{ProviderConfig, ModelConfig, Config, entries}
use claude_code_router.Db.Summary.{UsageSummaryRow, usage_summary}
use claude_code_router.Db.{
  Database, ClientKey, UsageRecord, ProviderKey, list_keys, list_provider_keys, count_provider_keys,
  query_usage, order_by,
}

-- strconv.ParseInt(s, 10, 64): a sign, then digits, in the range of int64.
digits : Text → ℕ → Option ℕ
digits [] n = some n
digits (b ∷ s) n =
    let rest = digits s (n * 10 + (b - b'0')) in if leb b'0' b && leb b b'9' then rest else none

magnitude : Text → Option ℕ
unfolding digits
magnitude [] = none
magnitude (b ∷ s) = digits (b ∷ s) 0

abbrev int64_limit : ℕ
int64_limit = 9_223_372_036_854_775_808

positive : Option ℕ → Option ℤ
positive none = none
positive (some n) = if ltb n int64_limit then some (pos n) else none

negative : Option ℕ → Option ℤ
negative none = none
negative (some zero) = some (pos 0)
negative (some (suc n)) = if ltb n int64_limit then some (negsuc n) else none

pub parse_int : Text → Option ℤ
unfolding magnitude positive negative
parse_int [] = none
parse_int (b ∷ s) =
    if text_eq (b ∷ []) (codes "-")
    then negative (magnitude s)
    else if text_eq (b ∷ []) (codes "+")
    then positive (magnitude s)
    else positive (magnitude (b ∷ s))

abbrev or_default : ℤ → Option ℤ → ℤ
or_default d none = d
or_default d (some n) = n

pub parse_int_param : Text → ℤ → ℤ
unfolding parse_int
parse_int_param [] d = d
parse_int_param (b ∷ s) d = or_default d (parse_int (b ∷ s))

pub handle_info : Config → ℕ
handle_info cfg = cfg.server.client_port

-- Times are nanoseconds; `requests` is the counter that IncrRequests adds to.
pub record Health : Type 0 where
  pub status : Text
  pub uptime : ℕ
  pub requests : ℕ

pub handle_health : (started requests now : ℕ) → Health
handle_health started requests now = record {
  status = codes "ok";
  uptime = (now - started) / 1_000_000_000;
  requests = requests;
}

pub handle_list_keys : Database → List ClientKey
handle_list_keys d = list_keys d

pub record UsageQuery : Type 0 where
  pub key : Text
  pub model : Text
  pub from : Text
  pub to : Text
  pub limit : Text

pub handle_usage : (Text → Text → Bool) → UsageQuery → Database → List UsageRecord
unfolding parse_int_param
handle_usage like q d =
    query_usage like q.key q.model (parse_int_param q.from (pos 0)) (parse_int_param q.to (pos 0))
      (parse_int_param q.limit (pos 100)) d

pub handle_usage_summary : (now : ℕ) → Database → List UsageSummaryRow
handle_usage_summary now d = usage_summary now d

pub handle_list_models : Config → List ModelConfig
handle_list_models cfg = cfg.models

pub record ProviderEntry : Type 0 where
  pub id : Text
  pub base_url : Text
  pub convention : Text
  pub key_count : ℕ

provider_entry : Database → Text × ProviderConfig → ProviderEntry
provider_entry d (id, p) = record {
  id = id;
  base_url = p.base_url;
  convention = p.convention;
  key_count = count_provider_keys id d;
}

-- The map's order is arbitrary, and its keys do not repeat, so the sort decides the order.
pub handle_list_providers : Config → Database → List ProviderEntry
unfolding provider_entry
handle_list_providers cfg d =
    order_by (λ a b. text_lt a.id b.id) (map (provider_entry d) (entries cfg.providers))

pub handle_list_provider_keys : Text → Database → List ProviderKey
handle_list_provider_keys id d = list_provider_keys id d
