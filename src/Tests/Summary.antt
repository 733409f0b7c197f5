-- ===== src/Tests/Summary.antt =====
-- The hourly summary of a usage table with two requests in one hour.
use claude_code_router.Json.{pos}
use claude_code_router.Common.{ℕ, ◌≡◌, refl, codes, text_eq, [], ◌∷◌, select}
use claude_code_router.Db.{UsageRecord, Database, empty_database, write_usage}
use claude_code_router.Db.Summary.{UsageSummaryRow, usage_summary, in_group, recent}
use claude_code_router.Db.Summary.Groups.{summed, belongs, HoursRise, usage_summary-summed}

abbrev request : ℕ → UsageRecord
request ts = record {
  id = 0;
  ts = ts;
  client_key = codes "laptop";
  requested_model = codes "opus";
  routed_model = codes "m1";
  provider = codes "one";
  input_tokens = pos 3;
  output_tokens = pos 4;
  latency_ms = 12;
  status = 200;
  fallback_count = 0;
}

-- The first is older than thirty days.
abbrev usage_table : Database
usage_table =
    write_usage (request 2_600_100)
      (write_usage (request 2_599_900) (write_usage (request 90) empty_database))

summary_rows :
    usage_summary 2_600_200 usage_table
    ≡ record {
      hour_ts = 2_599_200;
      model = codes "opus";
      request_count = 2;
      input_tokens = pos 6;
      output_tokens = pos 8;
    }
      ∷ []
unfolding usage_summary claude_code_router.Db.order_by write_usage empty_database text_eq
    claude_code_router.Db.Summary.◌+ℤ◌
summary_rows = refl

usage_summary-summed_example :
    (select (in_group 2_599_200 (codes "opus")) (usage_summary 2_600_200 usage_table)
      ≡ summed 2_599_200
          (codes "opus")
          (select (belongs 2_599_200 (codes "opus")) (select (recent 2_600_200) usage_table.usage)))
    × HoursRise (usage_summary 2_600_200 usage_table)
usage_summary-summed_example = usage_summary-summed 2_600_200 2_599_200 (codes "opus") usage_table
