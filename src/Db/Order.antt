-- ===== src/Db/Order.antt =====
-- ORDER BY in db/usage.go: what the sort of a query's rows guarantees.
use claude_code_router.Common.{
  ◌≡◌, refl, Bool, true, false, List, [], ◌∷◌, select, Bool-cases, inl, inr,
}
use claude_code_router.Db.{order_by, insert_by}

module _ {ℓ} {A : Type ℓ} (R : A → A → Type 0) where
  abbrev pub From : A → List A → Type 0
  From a [] = Unit
  From a (b ∷ bs) = R a b × From b bs

  -- Every row stands before the next.
  abbrev pub InOrder : List A → Type 0
  InOrder [] = Unit
  InOrder (a ∷ as') = From a as'

-- `R` is what the test `first` decides, and a failed test says that the rows stand the other way round.
module _ {ℓ} {A : Type ℓ} (first : A → A → Bool) (R : A → A → Type 0)
    (passed : (a b : A) → first a b ≡ true → R a b)
    (refused : (a b : A) → first a b ≡ false → R b a) where
  insert_by-From : (a b : A) (bs : List A) → R b a → From R b bs → From R b (insert_by first a bs)
  unfolding insert_by
  insert_by-From a b [] h k = (h, tt)
  insert_by-From a b (c ∷ cs) h k = elim (Bool-cases (first a c)) [
    | inl y ↦ rw y (h, (passed a c y, k.1))
    | inr n ↦ rw n (k.0, insert_by-From a c cs (refused a c n) k.1)
  ]

  insert_by-InOrder : (a : A) (bs : List A) → InOrder R bs → InOrder R (insert_by first a bs)
  unfolding insert_by
  insert_by-InOrder a [] k = tt
  insert_by-InOrder a (b ∷ bs) k = elim (Bool-cases (first a b)) [
    | inl y ↦ rw y (passed a b y, k)
    | inr n ↦ rw n (insert_by-From a b bs (refused a b n) k)
  ]

  pub order_by-InOrder : (as' : List A) → InOrder R (order_by first as')
  unfolding order_by
  order_by-InOrder [] = tt
  order_by-InOrder (a ∷ as') = insert_by-InOrder a (order_by first as') (order_by-InOrder as')

-- Rows that pass `p` stand in either order, so the sort leaves them as they stood.
module _ {ℓ} {A : Type ℓ} (first : A → A → Bool) (p : A → Bool)
    (either : (a b : A) → p a ≡ true → p b ≡ true → first a b ≡ true) where
  select-insert_by : (a : A) (bs : List A) → select p (insert_by first a bs) ≡ select p (a ∷ bs)
  unfolding insert_by
  select-insert_by a [] = refl
  select-insert_by a (b ∷ bs) = elim (Bool-cases (first a b)) [
    | inl y ↦ rw y refl
    | inr n ↦ elim (Bool-cases (p a)) [
      | inr q ↦ rw (n, select-insert_by a bs, q) refl
      | inl q ↦ elim (Bool-cases (p b)) [
        | inr r ↦ rw (n, r, select-insert_by a bs, q) refl
        | inl r ↦ absurd (cc (n, either a b q r))
      ]
    ]
  ]

  pub select-order_by : (as' : List A) → select p (order_by first as') ≡ select p as'
  unfolding order_by
  select-order_by [] = refl
  select-order_by (a ∷ as') = rw (select-insert_by a (order_by first as'), select-order_by as') refl
