-- ===== src/Book/Spec.antt =====
-- What a book promises: the orders at rest as one list in the order of arrival, of which a level
-- is the part on its side and at its price.
use system_k_dev.Base.{
  ℕ, ◌≡◌, refl, ap, Bool, ◌&&◌, none, some, List, [], ◌∷◌, ◌++◌, ◌==◌, if◌then◌else◌, arith,
  Bool-cases, inl, inr,
}
use system_k_dev.Book.Limit.{Side, KOrder}
use system_k_dev.Book.Orders.{drop_id, resize_id, find_id}
use system_k_dev.Book.Insert.{same_side}

module _ {F : Type 0} where
  -- No two of the orders have one id.
  abbrev pub DistinctIds : List (KOrder F) → Type 0
  DistinctIds [] = Unit {0}
  DistinctIds (o ∷ os) = (find_id o.order_id os ≡ none) × DistinctIds os

  pub find_id-some :
      (os : List (KOrder F)) (id : ℕ) (o : KOrder F) → find_id id os ≡ some o → o.order_id ≡ id
  unfolding find_id
  find_id-some [] id o e = cc
  find_id-some (p ∷ os) id o e =
      ground (arith, find_id-some os id o, ap (λ (x : KOrder F). x.order_id))

  pub find_id-append :
      (os : List (KOrder F)) (o : KOrder F) (j : ℕ)
      → find_id o.order_id os ≡ none
      → find_id j (os ++ (o ∷ [])) ≡ (if o.order_id == j then some o else find_id j os)
  unfolding find_id
  find_id-append [] o j e = refl
  find_id-append (p ∷ os) o j e = ground (arith, find_id-append os o j)

  pub find_id-drop_id :
      (os : List (KOrder F)) (id j : ℕ)
      → DistinctIds os
      → find_id j (drop_id id os) ≡ (if id == j then none else find_id j os)
  unfolding find_id drop_id
  find_id-drop_id [] id j u = ground arith
  find_id-drop_id (p ∷ os) id j u =
      ground (arith, find_id-drop_id os id j u.1, u.0, ap (λ i. find_id i os))

  pub find_id-resize_id :
      (os : List (KOrder F)) (id : ℕ) (size : F) (o : KOrder F) (j : ℕ)
      → find_id id os ≡ some o
      → find_id j (resize_id id size os)
        ≡ (if id == j then some (record o { size = size }) else find_id j os)
  unfolding find_id resize_id
  find_id-resize_id [] id size o j e = cc
  find_id-resize_id (p ∷ os) id size o j e =
      ground
        (arith, find_id-resize_id os id size o j, ap (λ (x : KOrder F). record x { size = size }))

  pub DistinctIds-append :
      (os : List (KOrder F)) (o : KOrder F)
      → find_id o.order_id os ≡ none
      → DistinctIds os
      → DistinctIds (os ++ (o ∷ []))
  unfolding find_id
  DistinctIds-append [] o e u = (refl, tt)
  DistinctIds-append (p ∷ os) o e u = (
    ground (arith, find_id-append os o p.order_id, u.0),
    DistinctIds-append os o (ground arith) u.1,
  )

  pub DistinctIds-drop_id :
      (os : List (KOrder F)) (id : ℕ) → DistinctIds os → DistinctIds (drop_id id os)
  unfolding drop_id
  DistinctIds-drop_id [] id u = tt
  DistinctIds-drop_id (p ∷ os) id u = elim (Bool-cases (p.order_id == id)) [
    | inl t ↦ rw t u.1
    | inr t ↦
        rw t
          (ground (arith, find_id-drop_id os id p.order_id u.1, u.0), DistinctIds-drop_id os id u.1)
  ]

  -- Resizing keeps the ids.
  find_id-none-resize_id :
      (os : List (KOrder F)) (id : ℕ) (size : F) (j : ℕ)
      → find_id j os ≡ none
      → find_id j (resize_id id size os) ≡ none
  unfolding find_id resize_id
  find_id-none-resize_id [] id size j e = refl
  find_id-none-resize_id (p ∷ os) id size j e = ground (arith, find_id-none-resize_id os id size j)

  pub DistinctIds-resize_id :
      (os : List (KOrder F)) (id : ℕ) (size : F)
      → DistinctIds os
      → DistinctIds (resize_id id size os)
  unfolding resize_id
  DistinctIds-resize_id [] id size u = tt
  DistinctIds-resize_id (p ∷ os) id size u = elim (Bool-cases (p.order_id == id)) [
    | inl t ↦ rw t u
    | inr t ↦
        rw t
          (find_id-none-resize_id os id size p.order_id u.0, DistinctIds-resize_id os id size u.1)
  ]

  pub drop_id_absent : (os : List (KOrder F)) (id : ℕ) → find_id id os ≡ none → drop_id id os ≡ os
  unfolding drop_id find_id
  drop_id_absent [] id e = refl
  drop_id_absent (p ∷ os) id e = ground (arith, drop_id_absent os id)

  pub resize_id_absent :
      (os : List (KOrder F)) (id : ℕ) (size : F) → find_id id os ≡ none → resize_id id size os ≡ os
  unfolding resize_id find_id
  resize_id_absent [] id size e = refl
  resize_id_absent (p ∷ os) id size e = ground (arith, resize_id_absent os id size)

  module _ (rank : F → ℕ) where
    abbrev pub is_at : Side → ℕ → KOrder F → Bool
    is_at s k o = same_side o.buy_sell s && (rank o.price == k)

    -- The orders at a price of a side.
    unfoldable pub part : Side → ℕ → List (KOrder F) → List (KOrder F)
    part s k [] = []
    part s k (o ∷ os) = if is_at s k o then o ∷ part s k os else part s k os

    pub part-append :
        (s : Side) (k : ℕ) (os : List (KOrder F)) (o : KOrder F)
        → part s k (os ++ (o ∷ [])) ≡ (if is_at s k o then part s k os ++ (o ∷ []) else part s k os)
    unfolding part
    part-append s k [] o = refl
    part-append s k (p ∷ os) o = ground (arith, part-append s k os o)

    pub part-drop_id :
        (s : Side) (k : ℕ) (os : List (KOrder F)) (id : ℕ) (o : KOrder F)
        → find_id id os ≡ some o
        → part s k (drop_id id os) ≡ (if is_at s k o then drop_id id (part s k os) else part s k os)
    unfolding part drop_id find_id
    part-drop_id s k [] id o e = cc
    part-drop_id s k (p ∷ os) id o e = ground (arith, part-drop_id s k os id o, ap (is_at s k))

    pub part-resize_id :
        (s : Side) (k : ℕ) (os : List (KOrder F)) (id : ℕ) (size : F) (o : KOrder F)
        → find_id id os ≡ some o
        → part s k (resize_id id size os)
          ≡ (if is_at s k o then resize_id id size (part s k os) else part s k os)
    unfolding part resize_id find_id
    part-resize_id s k [] id size o e = cc
    part-resize_id s k (p ∷ os) id size o e =
        ground (arith, part-resize_id s k os id size o, ap (is_at s k))
