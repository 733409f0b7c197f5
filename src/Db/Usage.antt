-- ===== src/Db/Usage.antt =====
-- What a query on the usage table yields.
use claude_code_router.Common.{
  zero, suc, ℕ, ◌≡◌, ◌≤◌, Text, Bool, true, false, List, [], ◌∷◌, select, length, take, All, arith,
  Bool-cases, inl, inr, leb,
}
use claude_code_router.Db.{
  negsuc, pos, ℤ, UsageRecord, Database, query_usage, matches, limited, order_by, insert_by,
}

-- The later row first.
abbrev later_first : UsageRecord → UsageRecord → Bool
later_first a b = leb b.ts a.ts

-- The rows go from late to early, none later than `hi`.
abbrev pub Falling : ℕ → List UsageRecord → Type 0
Falling hi [] = Unit
Falling hi (r ∷ rs) = (r.ts ≤ hi) × Falling r.ts rs

abbrev pub IsFalling : List UsageRecord → Type 0
IsFalling [] = Unit
IsFalling (r ∷ rs) = Falling r.ts rs

insert-Falling :
    (hi : ℕ) (r : UsageRecord) (rs : List UsageRecord)
    → r.ts ≤ hi
    → Falling hi rs
    → Falling hi (insert_by later_first r rs)
unfolding insert_by
insert-Falling hi r [] h f = (h, tt)
insert-Falling hi r (s ∷ rs) h f = elim (Bool-cases (leb s.ts r.ts)) [
  | inl y ↦ rw y (h, (leb-le y, f.1))
  | inr n ↦ rw n (f.0, insert-Falling s.ts r rs (leb-ge n) f.1)
]
  where
    leb-le : leb s.ts r.ts ≡ true → s.ts ≤ r.ts
    leb-le y = ground (arith, y)

    leb-ge : leb s.ts r.ts ≡ false → r.ts ≤ s.ts
    leb-ge n = ground (arith, n)

insert-IsFalling :
    (r : UsageRecord) (rs : List UsageRecord)
    → IsFalling rs
    → IsFalling (insert_by later_first r rs)
unfolding insert_by
insert-IsFalling r [] f = tt
insert-IsFalling r (s ∷ rs) f = elim (Bool-cases (leb s.ts r.ts)) [
  | inl y ↦ rw y (leb-le y, f)
  | inr n ↦ rw n (insert-Falling s.ts r rs (leb-ge n) f)
]
  where
    leb-le : leb s.ts r.ts ≡ true → s.ts ≤ r.ts
    leb-le y = ground (arith, y)

    leb-ge : leb s.ts r.ts ≡ false → r.ts ≤ s.ts
    leb-ge n = ground (arith, n)

order_by-IsFalling : (rs : List UsageRecord) → IsFalling (order_by later_first rs)
unfolding order_by
order_by-IsFalling [] = tt
order_by-IsFalling (r ∷ rs) = insert-IsFalling r (order_by later_first rs) (order_by-IsFalling rs)

take-Falling : (n hi : ℕ) (rs : List UsageRecord) → Falling hi rs → Falling hi (take n rs)
take-Falling zero hi rs f = tt
take-Falling (suc n) hi [] f = tt
take-Falling (suc n) hi (r ∷ rs) f = (f.0, take-Falling n r.ts rs f.1)

take-IsFalling : (n : ℕ) (rs : List UsageRecord) → IsFalling rs → IsFalling (take n rs)
take-IsFalling zero rs f = tt
take-IsFalling (suc n) [] f = tt
take-IsFalling (suc n) (r ∷ rs) f = take-Falling n r.ts rs f

limited-IsFalling : (l : ℤ) (rs : List UsageRecord) → IsFalling rs → IsFalling (limited l rs)
unfolding limited
limited-IsFalling (pos zero) rs f = f
limited-IsFalling (pos (suc n)) rs f = take-IsFalling (suc n) rs f
limited-IsFalling (negsuc n) rs f = f

insert-All :
    (P : UsageRecord → Type 0) (r : UsageRecord) (rs : List UsageRecord)
    → P r
    → All P rs
    → All P (insert_by later_first r rs)
unfolding insert_by
insert-All P r [] p a = (p, tt)
insert-All P r (s ∷ rs) p a = elim (Bool-cases (leb s.ts r.ts)) [
  | inl y ↦ rw y (p, a)
  | inr n ↦ rw n (a.0, insert-All P r rs p a.1)
]

order_by-All :
    (P : UsageRecord → Type 0) (rs : List UsageRecord) → All P rs → All P (order_by later_first rs)
unfolding order_by
order_by-All P [] a = tt
order_by-All P (r ∷ rs) a = insert-All P r (order_by later_first rs) a.0 (order_by-All P rs a.1)

take-All : (P : UsageRecord → Type 0) (n : ℕ) (rs : List UsageRecord) → All P rs → All P (take n rs)
take-All P zero rs a = tt
take-All P (suc n) [] a = tt
take-All P (suc n) (r ∷ rs) a = (a.0, take-All P n rs a.1)

limited-All :
    (P : UsageRecord → Type 0) (l : ℤ) (rs : List UsageRecord) → All P rs → All P (limited l rs)
unfolding limited
limited-All P (pos zero) rs a = a
limited-All P (pos (suc n)) rs a = take-All P (suc n) rs a
limited-All P (negsuc n) rs a = a

select-matching :
    (p : UsageRecord → Bool) (rs : List UsageRecord) → All (λ r. p r ≡ true) (select p rs)
select-matching p [] = tt
select-matching p (r ∷ rs) = elim (Bool-cases (p r)) [
  | inl y ↦ rw y (y, select-matching p rs)
  | inr n ↦ rw n (select-matching p rs)
]

take-bound : (n : ℕ) (rs : List UsageRecord) → length (take n rs) ≤ n
take-bound zero rs = omega arith
take-bound (suc n) [] = omega arith
take-bound (suc n) (r ∷ rs) = omega (arith, take-bound n rs)

-- A page of the usage log goes from late to early, every row of it meets the filters, and a positive
-- limit bounds it.
pub query_usage_sound :
    (like : Text → Text → Bool) (key model : Text) (from to : ℤ) (n : ℕ) (d : Database)
    → IsFalling (query_usage like key model from to (pos (suc n)) d)
      × All
          (λ r. matches like key model from to r ≡ true)
          (query_usage like key model from to (pos (suc n)) d)
      × (length (query_usage like key model from to (pos (suc n)) d) ≤ suc n)
unfolding query_usage limited
query_usage_sound like key model from to n d = (
  take-IsFalling (suc n) _ (order_by-IsFalling _),
  take-All _ (suc n) _ (order_by-All _ _ (select-matching _ d.usage)),
  take-bound (suc n) _,
)
