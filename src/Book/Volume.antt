-- ===== src/Book/Volume.antt =====
-- The volume of a limit's orders, and what a change of one order does to it.
use system_k_dev.Base.{
  ℕ, ◌+◌, ◌≡◌, refl, ap, ap₂, ◌∙◌, sym, none, some, List, [], ◌∷◌, ◌++◌, ◌==◌, arith, Bool-cases,
  inl, inr,
}
use system_k_dev.Double.{DoubleOps}
use system_k_dev.Book.Limit.{KOrder, Heap, update, find_order}
use system_k_dev.Book.Orders.{All, Distinct, values, resize_id, drop_id, find_id, find_order-some}

module _ {F : Type 0} where
  -- The two heaps agree on the orders.
  abbrev pub Agree : Heap F → Heap F → List ℕ → Type 0
  Agree g h xs = All (λ a. g a ≡ h a) xs

  abbrev pub SameKeys : Heap F → Heap F → Type 0
  SameKeys g h =
      (a : ℕ)
      → ((g a).order_id ≡ (h a).order_id)
        × ((g a).buy_sell ≡ (h a).buy_sell)
        × ((g a).price ≡ (h a).price)

  abbrev pub resized : Heap F → ℕ → F → Heap F
  resized h a size = update h a (record (h a) { size = size })

  pub resized-SameKeys : (h : Heap F) (a : ℕ) (size : F) → SameKeys (resized h a size) h
  resized-SameKeys h a size b = ground arith

  pub find_order-SameKeys :
      (g h : Heap F) (xs : List ℕ) (id : ℕ) → SameKeys g h → find_order g xs id ≡ find_order h xs id
  unfolding find_order
  find_order-SameKeys g h [] id s = refl
  find_order-SameKeys g h (a ∷ xs) id s = rw ((s a).0, find_order-SameKeys g h xs id s)

  pub Distinct-SameKeys :
      (g h : Heap F) (xs : List ℕ) → SameKeys g h → Distinct h xs → Distinct g xs
  Distinct-SameKeys g h [] s t = tt
  Distinct-SameKeys g h (a ∷ xs) s t =
      (rw ((s a).0, find_order-SameKeys g h xs _ s) t.0, Distinct-SameKeys g h xs s t.1)

  pub find_order-Agree :
      (g h : Heap F) (xs : List ℕ) (id : ℕ) → Agree g h xs → find_order g xs id ≡ find_order h xs id
  unfolding find_order
  find_order-Agree g h [] id s = refl
  find_order-Agree g h (a ∷ xs) id s = rw (s.0, find_order-Agree g h xs id s.1)

  pub Distinct-Agree : (g h : Heap F) (xs : List ℕ) → Agree g h xs → Distinct h xs → Distinct g xs
  Distinct-Agree g h [] s t = tt
  Distinct-Agree g h (a ∷ xs) s t =
      (rw (s.0, find_order-Agree g h xs _ s.1) t.0, Distinct-Agree g h xs s.1 t.1)

  pub values-Agree : (g h : Heap F) (xs : List ℕ) → Agree g h xs → values g xs ≡ values h xs
  values-Agree g h [] s = refl
  values-Agree g h (a ∷ xs) s = ap₂ ◌∷◌ s.0 (values-Agree g h xs s.1)

  -- An object whose id the limit does not list is none of its orders.
  pub update-Agree :
      (h : Heap F) (xs : List ℕ) (a : ℕ) (o : KOrder F)
      → find_order h xs (h a).order_id ≡ none
      → Agree (update h a o) h xs
  unfolding find_order
  update-Agree h [] a o e = tt
  update-Agree h (b ∷ xs) a o e = ground (arith, update-Agree h xs a o, ap (λ c. (h c).order_id))

  -- Resizing one of the orders.
  pub values-resized :
      (h : Heap F) (xs : List ℕ) (id a : ℕ) (size : F)
      → Distinct h xs
      → find_order h xs id ≡ some a
      → values (resized h a size) xs ≡ resize_id id size (values h xs)
  unfolding find_order resize_id
  values-resized h [] id a size s e = cc
  values-resized h (b ∷ xs) id a size s e = elim (Bool-cases ((h b).order_id == id)) [
    | inl t ↦
        let same : b ≡ a = ground arith in
        let absent : find_order h xs (h a).order_id ≡ none =
          sym (ap (λ c. find_order h xs (h c).order_id) same) ∙ s.0 in
        rw t (
          ap₂ ◌∷◌ (ground arith)
            (values-Agree _ h xs (update-Agree h xs a (record (h a) { size = size }) absent)))
    | inr t ↦
        let other : (b ≡ a) → ⊥ =
          λ same. ground (arith, find_order-some h xs id a, ap (λ c. (h c).order_id) same) in
        rw t (ap₂ ◌∷◌ (ground arith) (values-resized h xs id a size s.1 (ground arith)))
  ]

  pub find_id-values :
      (h : Heap F) (xs : List ℕ) (id a : ℕ)
      → find_order h xs id ≡ some a
      → find_id id (values h xs) ≡ some (h a)
  unfolding find_order find_id
  find_id-values h [] id a e = cc
  find_id-values h (b ∷ xs) id a e = elim (Bool-cases ((h b).order_id == id)) [
    | inl t ↦ let same : b ≡ a = ground arith in rw (t, same)
    | inr t ↦ rw t (find_id-values h xs id a (ground arith))
  ]

module _ {F : Type 0} (d : DoubleOps F) where
  unfoldable pub sum_sizes : List (KOrder F) → ℕ
  sum_sizes [] = 0
  sum_sizes (o ∷ os) = d.to_u32 o.size + sum_sizes os

  pub sum_sizes-append :
      (os : List (KOrder F)) (o : KOrder F)
      → sum_sizes (os ++ (o ∷ [])) ≡ sum_sizes os + d.to_u32 o.size
  unfolding sum_sizes
  sum_sizes-append [] o = omega arith
  sum_sizes-append (p ∷ os) o = omega (arith, sum_sizes-append os o)

  pub sum_sizes-drop_id :
      (os : List (KOrder F)) (id : ℕ) (o : KOrder F)
      → find_id id os ≡ some o
      → sum_sizes (drop_id id os) + d.to_u32 o.size ≡ sum_sizes os
  unfolding sum_sizes drop_id find_id
  sum_sizes-drop_id [] id o e = cc
  sum_sizes-drop_id (p ∷ os) id o e =
      ground (arith, sum_sizes-drop_id os id o, ap (λ (x : KOrder F). d.to_u32 x.size))

  pub sum_sizes-resize_id :
      (os : List (KOrder F)) (id : ℕ) (o : KOrder F) (size : F)
      → find_id id os ≡ some o
      → sum_sizes (resize_id id size os) + d.to_u32 o.size ≡ sum_sizes os + d.to_u32 size
  unfolding sum_sizes resize_id find_id
  sum_sizes-resize_id [] id o size e = cc
  sum_sizes-resize_id (p ∷ os) id o size e = ground (arith, sum_sizes-resize_id os id o size)
