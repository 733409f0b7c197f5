-- ===== src/Db/Summary/Groups.antt =====
-- What the hourly summary says of the usage table.
use claude_code_router.Common.{
  ℕ, ◌≡◌, ◌≤◌, refl, sym, ◌∙◌, ap, Text, text_eq, text_eq_iff, text_eq_refl, Bool, true, false,
  ◌&&◌, ◌==◌, List, [], ◌∷◌, select, map, length, Bool-cases, inl, inr, arith,
}
use claude_code_router.Json.{ℤ}
use claude_code_router.Db.{UsageRecord, Database}
use claude_code_router.Db.Order.{InOrder, order_by-InOrder, select-order_by}
use claude_code_router.Db.Summary.{
  UsageSummaryRow, ◌+ℤ◌, hour_of, recent, in_group, alone, joined, add_row, group_rows,
  earlier_hour, usage_summary,
}

-- The usage rows of one hour and one model.
abbrev pub belongs : ℕ → Text → UsageRecord → Bool
belongs h m r = (hour_of r.ts == h) && text_eq r.requested_model m

abbrev pub sum_from : ℤ → List ℤ → ℤ
sum_from n [] = n
sum_from n (k ∷ ks) = n +ℤ sum_from k ks

-- No row for no usage, and otherwise one, with the count and the sums.
abbrev pub summed : ℕ → Text → List UsageRecord → List UsageSummaryRow
summed h m [] = []
summed h m (r ∷ rs) =
    record {
      hour_ts = h;
      model = m;
      request_count = length (r ∷ rs);
      input_tokens = sum_from r.input_tokens (map (λ s. s.input_tokens) rs);
      output_tokens = sum_from r.output_tokens (map (λ s. s.output_tokens) rs);
    }
    ∷ []

-- The groups of one key, when a row of that key comes.
abbrev absorbed : UsageRecord → List UsageSummaryRow → List UsageSummaryRow
absorbed r [] = alone r ∷ []
absorbed r (g ∷ gs) = joined r g ∷ gs

absorbed-summed :
    (h : ℕ) (m : Text) (r : UsageRecord) (rs : List UsageRecord)
    → hour_of r.ts ≡ h
    → r.requested_model ≡ m
    → absorbed r (summed h m rs) ≡ summed h m (r ∷ rs)
absorbed-summed h m r [] a b = rw (sym a, sym b) refl
absorbed-summed h m r (s ∷ rs) a b = refl

key_of : (a h : ℕ) (b m : Text) → ((a == h) && text_eq b m) ≡ true → (a ≡ h) × (b ≡ m)
key_of a h b m q = ground (arith, text_eq_iff b m)

own_key : (r : UsageRecord) → belongs (hour_of r.ts) r.requested_model r ≡ true
own_key r = ground (arith, text_eq_refl r.requested_model)

add_row_own :
    (r : UsageRecord) (gs : List UsageSummaryRow)
    → select (in_group (hour_of r.ts) r.requested_model) (add_row r gs)
      ≡ absorbed r (select (in_group (hour_of r.ts) r.requested_model) gs)
unfolding add_row
add_row_own r [] = rw (own_key r) refl
add_row_own r (g ∷ gs) = elim (Bool-cases (in_group (hour_of r.ts) r.requested_model g)) [
  | inl y ↦
      let q : ((g.hour_ts == hour_of r.ts) && text_eq g.model r.requested_model) ≡ true = y in
      rw (y, q) refl
  | inr n ↦ rw (n, add_row_own r gs, n) refl
]

select-add_row_own :
    (h : ℕ) (m : Text) (r : UsageRecord) (gs : List UsageSummaryRow)
    → hour_of r.ts ≡ h
    → r.requested_model ≡ m
    → select (in_group h m) (add_row r gs) ≡ absorbed r (select (in_group h m) gs)
select-add_row_own h m r gs a b = rw (sym a, sym b) (add_row_own r gs)

select-add_row_other :
    (h : ℕ) (m : Text) (r : UsageRecord) (gs : List UsageSummaryRow)
    → belongs h m r ≡ false
    → select (in_group h m) (add_row r gs) ≡ select (in_group h m) gs
unfolding add_row
select-add_row_other h m r [] n = rw n refl
select-add_row_other h m r (g ∷ gs) n =
    elim (Bool-cases (in_group (hour_of r.ts) r.requested_model g)) [
      | inl y ↦
          let (a, b) = key_of g.hour_ts (hour_of r.ts) g.model r.requested_model y in
          let q : in_group h m g ≡ false = rw (a, b) n in rw (y, q) refl
      | inr q ↦ rw (q, select-add_row_other h m r gs n) refl
    ]

select-group_rows :
    (h : ℕ) (m : Text) (rs : List UsageRecord)
    → select (in_group h m) (group_rows rs) ≡ summed h m (select (belongs h m) rs)
unfolding group_rows
select-group_rows h m [] = refl
select-group_rows h m (r ∷ rs) = elim (Bool-cases (belongs h m r)) [
  | inl y ↦
      let (a, b) = key_of (hour_of r.ts) h r.requested_model m y in
      rw y (
        select-add_row_own h m r (group_rows rs) a b
        ∙ ap (absorbed r) (select-group_rows h m rs)
        ∙ absorbed-summed h m r _ a b)
  | inr n ↦ rw n (select-add_row_other h m r (group_rows rs) n ∙ select-group_rows h m rs)
]

-- Hours do not fall from one row to the next.
abbrev pub HoursRise : List UsageSummaryRow → Type 0
HoursRise = InOrder (λ a b. a.hour_ts ≤ b.hour_ts)

-- The hourly summary has exactly one row for every hour and model with a request of the last thirty
-- days and none for any other, the row counts these requests and adds their tokens up, and the hours
-- never fall from one row to the next.
pub usage_summary-summed :
    (now h : ℕ) (m : Text) (d : Database)
    → (select (in_group h m) (usage_summary now d)
        ≡ summed h m (select (belongs h m) (select (recent now) d.usage)))
      × HoursRise (usage_summary now d)
unfolding usage_summary
usage_summary-summed now h m d = (
  select-order_by earlier_hour (in_group h m) (λ a b p q. same_hour a b p q) _
      ∙ select-group_rows h m _,
  order_by-InOrder earlier_hour _ (λ a b y. ground (arith, y)) (λ a b n. ground (arith, n)) _,
)
  where
    same_hour :
        (a b : UsageSummaryRow)
        → in_group h m a ≡ true
        → in_group h m b ≡ true
        → earlier_hour a b ≡ true
    same_hour a b p q =
        let (x, _) = key_of a.hour_ts h a.model m p in
        let (y, _) = key_of b.hour_ts h b.model m q in ground (arith, x, y)
