-- ===== src/Db/Summary.antt =====
-- db/usage.go, UsageSummary: what the statement says, clause by clause. The rows of one hour come in
-- an order that SQL leaves open; sums stay within int64.
pub mod Groups
use claude_code_router.Common.{
  ℕ, suc, ◌+◌, ◌-◌, ◌*◌, ◌/◌, Text, text_eq, Bool, ◌&&◌, ◌==◌, leb, if◌then◌else◌, List, [], ◌∷◌,
  select,
}
use claude_code_router.Json.{ℤ, pos, negsuc}
use claude_code_router.Db.{UsageRecord, Database, order_by}

pub record UsageSummaryRow : Type 0 where
  pub hour_ts : ℕ
  pub model : Text
  pub request_count : ℕ
  pub input_tokens : ℤ
  pub output_tokens : ℤ

sub_ℕ : ℕ → ℕ → ℤ
sub_ℕ a b = if leb b a then pos (a - b) else negsuc (b - a - 1)

infix 60 ◌+ℤ◌
unfoldable pub ◌+ℤ◌ : ℤ → ℤ → ℤ
unfolding sub_ℕ
pos a +ℤ pos b = pos (a + b)
pos a +ℤ negsuc b = sub_ℕ a (suc b)
negsuc a +ℤ pos b = sub_ℕ b (suc a)
negsuc a +ℤ negsuc b = negsuc (suc (a + b))

abbrev pub hour_of : ℕ → ℕ
hour_of ts = ts / 3600 * 3600

-- WHERE: ts >= now - 30 * 86400, in seconds.
abbrev pub recent : ℕ → UsageRecord → Bool
recent now r = leb now (r.ts + 30 * 86_400)

-- GROUP BY hour_ts, model: a row joins the group of its hour and model, or begins one.
abbrev pub in_group : ℕ → Text → UsageSummaryRow → Bool
in_group h m g = (g.hour_ts == h) && text_eq g.model m

abbrev pub alone : UsageRecord → UsageSummaryRow
alone r = record {
  hour_ts = hour_of r.ts;
  model = r.requested_model;
  request_count = 1;
  input_tokens = r.input_tokens;
  output_tokens = r.output_tokens;
}

abbrev pub joined : UsageRecord → UsageSummaryRow → UsageSummaryRow
joined r g = record g {
  request_count = suc g.request_count;
  input_tokens = r.input_tokens +ℤ g.input_tokens;
  output_tokens = r.output_tokens +ℤ g.output_tokens;
}

add_row : UsageRecord → List UsageSummaryRow → List UsageSummaryRow
add_row r [] = alone r ∷ []
add_row r (g ∷ gs) =
    if in_group (hour_of r.ts) r.requested_model g then joined r g ∷ gs else g ∷ add_row r gs

group_rows : List UsageRecord → List UsageSummaryRow
unfolding add_row
group_rows [] = []
group_rows (r ∷ rs) = add_row r (group_rows rs)

abbrev pub earlier_hour : UsageSummaryRow → UsageSummaryRow → Bool
earlier_hour a b = leb a.hour_ts b.hour_ts

unfoldable pub usage_summary : (now : ℕ) → Database → List UsageSummaryRow
unfolding group_rows
usage_summary now d = order_by earlier_hour (group_rows (select (recent now) d.usage))
