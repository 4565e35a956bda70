-- ===== src/Book/Orders.antt =====
-- The orders of one limit: lookup by id, the sum of the sizes, and how they follow the heap.
use system_k_dev.Base.{
  ℕ, ◌<◌, ◌≡◌, ◌≢◌, refl, ap, subst, Option, none, some, List, [], ◌∷◌, ◌++◌, ◌==◌, if◌then◌else◌,
  arith, map, length, Bool-cases, inl, inr,
}
use system_k_dev.Book.Limit.{KOrder, Heap, find_order, erase_order}

abbrev pub All {ℓ} : (ℕ → Type ℓ) → List ℕ → Type ℓ
All P [] = Unit
All P (a ∷ xs) = P a × All P xs

pub All-map {ℓ κ} :
    {P : ℕ → Type ℓ} {Q : ℕ → Type κ} (xs : List ℕ) → ((a : ℕ) → P a → Q a) → All P xs → All Q xs
All-map [] f h = tt
All-map (a ∷ xs) f h = (f a h.0, All-map xs f h.1)

pub All-zip {ℓ κ μ} :
    {P : ℕ → Type ℓ} {Q : ℕ → Type κ} {R : ℕ → Type μ} (xs : List ℕ)
    → ((a : ℕ) → P a → Q a → R a)
    → All P xs
    → All Q xs
    → All R xs
All-zip [] f h k = tt
All-zip (a ∷ xs) f h k = (f a h.0 k.0, All-zip xs f h.1 k.1)

pub All-append {ℓ} :
    (P : ℕ → Type ℓ) (xs : List ℕ) (a : ℕ) → P a → All P xs → All P (xs ++ (a ∷ []))
All-append P [] a p h = (p, tt)
All-append P (b ∷ xs) a p h = (h.0, All-append P xs a p h.1)

module _ {F : Type 0} where
  -- No two of the orders have one id.
  abbrev pub Distinct : Heap F → List ℕ → Type 0
  Distinct h [] = Unit {0}
  Distinct h (a ∷ xs) = (find_order h xs (h a).order_id ≡ none) × Distinct h xs

  -- The orders as values, in the order of arrival.
  abbrev pub values : Heap F → List ℕ → List (KOrder F)
  values h = map h

  -- Dropping the first order with an id, and changing its size, on the values.
  unfoldable pub drop_id : ℕ → List (KOrder F) → List (KOrder F)
  drop_id id [] = []
  drop_id id (o ∷ os) = if o.order_id == id then os else o ∷ drop_id id os

  unfoldable pub resize_id : ℕ → F → List (KOrder F) → List (KOrder F)
  resize_id id size [] = []
  resize_id id size (o ∷ os) =
      if o.order_id == id then record o { size = size } ∷ os else o ∷ resize_id id size os

  unfoldable pub find_id : ℕ → List (KOrder F) → Option (KOrder F)
  find_id id [] = none
  find_id id (o ∷ os) = if o.order_id == id then some o else find_id id os

  pub values-erase_order :
      (h : Heap F) (xs : List ℕ) (id : ℕ)
      → values h (erase_order h xs id) ≡ drop_id id (values h xs)
  unfolding erase_order drop_id
  values-erase_order h [] id = refl
  values-erase_order h (a ∷ xs) id = ground (arith, values-erase_order h xs id)

  pub values-append :
      (h : Heap F) (xs : List ℕ) (a : ℕ) → values h (xs ++ (a ∷ [])) ≡ values h xs ++ (h a ∷ [])
  values-append h [] a = refl
  values-append h (b ∷ xs) a = ap (◌∷◌ (h b)) (values-append h xs a)

  pub find_order-append :
      (h : Heap F) (xs : List ℕ) (a id : ℕ)
      → find_order h (xs ++ (a ∷ [])) id ≡ elim (find_order h xs id) [
        | some b ↦ some b
        | none ↦ if (h a).order_id == id then some a else none
      ]
  unfolding find_order
  find_order-append h [] a id = refl
  find_order-append h (b ∷ xs) a id = ground (arith, find_order-append h xs a id)

  pub Distinct-append :
      (h : Heap F) (xs : List ℕ) (a : ℕ)
      → find_order h xs (h a).order_id ≡ none
      → Distinct h xs
      → Distinct h (xs ++ (a ∷ []))
  unfolding find_order
  Distinct-append h [] a e s = (refl, tt)
  Distinct-append h (b ∷ xs) a e s =
      ground (arith, find_order-append h xs a (h b).order_id, Distinct-append h xs a)

  pub find_order-erase_order :
      (h : Heap F) (xs : List ℕ) (id j : ℕ)
      → Distinct h xs
      → find_order h (erase_order h xs id) j ≡ (if id == j then none else find_order h xs j)
  unfolding find_order erase_order
  find_order-erase_order h [] id j s = ground arith
  find_order-erase_order h (a ∷ xs) id j s = ground (arith, find_order-erase_order h xs id j s.1)

  pub Distinct-erase_order :
      (h : Heap F) (xs : List ℕ) (id : ℕ) → Distinct h xs → Distinct h (erase_order h xs id)
  unfolding erase_order
  Distinct-erase_order h [] id s = tt
  Distinct-erase_order h (a ∷ xs) id s =
      ground
        (arith, Distinct-erase_order h xs id s.1, find_order-erase_order h xs id (h a).order_id s.1)

  pub All-erase_order {ℓ} :
      (P : ℕ → Type ℓ) (h : Heap F) (xs : List ℕ) (id : ℕ) → All P xs → All P (erase_order h xs id)
  unfolding erase_order
  All-erase_order P h [] id s = tt
  All-erase_order P h (a ∷ xs) id s = elim (Bool-cases ((h a).order_id == id)) [
    | inl e ↦ rw e s.1
    | inr e ↦ rw e (s.0, All-erase_order P h xs id s.1)
  ]

  pub find_order_absent :
      (h : Heap F) (xs : List ℕ) (id : ℕ)
      → All (λ a. (h a).order_id ≢ id) xs
      → find_order h xs id ≡ none
  unfolding find_order
  find_order_absent h [] id s = refl
  find_order_absent h (a ∷ xs) id s = ground (arith, find_order_absent h xs id s.1)

  pub ids_differ :
      (h : Heap F) (xs : List ℕ) (id : ℕ)
      → find_order h xs id ≡ none
      → All (λ a. (h a).order_id ≢ id) xs
  unfolding find_order
  ids_differ h [] id e = tt
  ids_differ h (a ∷ xs) id e = (ground arith, ids_differ h xs id (ground arith))

  pub find_order-some :
      (h : Heap F) (xs : List ℕ) (id a : ℕ)
      → find_order h xs id ≡ some a
      → ((h a).order_id ≡ id) × (0 < length xs)
  unfolding find_order
  find_order-some h [] id a e = cc
  find_order-some h (b ∷ xs) id a e = ground (arith, find_order-some h xs id a)

  pub find_order-All {ℓ} :
      (P : ℕ → Type ℓ) (h : Heap F) (xs : List ℕ) (id a : ℕ)
      → find_order h xs id ≡ some a
      → All P xs
      → P a
  unfolding find_order
  find_order-All P h [] id a e s = elim (none_ne_some e) [ ]
    where
      none_ne_some : none ≡ some a → ⊥
      none_ne_some e = cc
  find_order-All P h (b ∷ xs) id a e s = elim (Bool-cases ((h b).order_id == id)) [
    | inl t ↦ subst P (ground arith) s.0
    | inr t ↦ find_order-All P h xs id a (ground arith) s.1
  ]

-- What holds of all the orders holds of the one that is found.
pub All-found {ℓ} :
    {F : Type 0} (P : ℕ → Type ℓ) (h : Heap F) (xs : List ℕ) (id a : ℕ)
    → find_order h xs id ≡ some a
    → All P xs
    → P a
unfolding find_order
All-found P h [] id a e all = cc
All-found P h (b ∷ xs) id a e all = elim (Bool-cases ((h b).order_id == id)) [
  | inl t ↦ subst P (ground (arith, e, t)) all.0
  | inr t ↦ All-found P h xs id a (ground (arith, e, t)) all.1
]
