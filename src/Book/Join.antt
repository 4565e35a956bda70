-- ===== src/Book/Join.antt =====
-- What `addBid` and `addAsk` do to their tree.
use system_k_dev.Base.{
  ℕ, ◌>>=◌, sym, true, ◌+◌, ◌%◌, ◌^◌, ◌≡◌, refl, ap, ◌∙◌, Option, none, some, List, [], ◌∷◌, ◌++◌,
  ◌==◌, if◌then◌else◌, arith, length-append, subst, Bool-cases, Option-cases, inl, inr,
}
use system_k_dev.Double.{DoubleOps, DoubleLaws}
use system_k_dev.Book.Limit.{
  Side, KLimit, Heap, Timespec, find_order, new_limit, set_update_time, add_order, add_volume,
}
use system_k_dev.Book.{add_to_tree, find_limit, insert_limit, put_limit}
use system_k_dev.Book.Tree.{
  limit_at, Ascending, rank_of_limit_at, find_limit-limit_at, limit_at-put_limit,
  put_limit-Ascending, limit_at-insert_limit, insert_limit-Ascending,
}
use system_k_dev.Book.Orders.{All, All-append, Distinct, Distinct-append, values, values-append}
use system_k_dev.Book.Volume.{sum_sizes, sum_sizes-append}
use system_k_dev.Book.Valid.{OrderOk, LimitOk, orders_of, orders_at}

module _ {F : Type 0} {d : DoubleOps F} (laws : DoubleLaws d) (h : Heap F) (t : List (KLimit F))
    (a : ℕ) (evt : Timespec) where
  open laws use {rank}

  abbrev price : F
  price = (h a).price

  abbrev key : ℕ
  key = rank (h a).price

  -- The limit once the order is in it, and the limit that the order ends up in.
  abbrev in_limit : KLimit F → KLimit F
  in_limit l = elim (find_order h l.orders (h a).order_id) [
    | some _ ↦ l
    | none ↦ add_volume (record l { orders = l.orders ++ (a ∷ []) }) (d.to_u32 (h a).size)
  ]

  abbrev joined_to : Option (KLimit F) → KLimit F
  joined_to (some l) = set_update_time (in_limit l) (some evt)
  joined_to none = in_limit (set_update_time (new_limit price 0) (some evt))

  abbrev pub joined : KLimit F
  joined = joined_to (limit_at laws t key)

  joined-price :
      (o : Option (KLimit F))
      → ((l : KLimit F) → o ≡ some l → rank l.price ≡ key)
      → rank (joined_to o).price ≡ key
  unfolding set_update_time new_limit
  joined-price none f = ground arith
  joined-price (some l) f = ground (arith, f l refl)

  joined-rank : rank joined.price ≡ key
  joined-rank = joined-price (limit_at laws t key) (rank_of_limit_at laws t key)

  abbrev tree_with : Option (KLimit F) → KLimit F → List (KLimit F)
  tree_with (some l) m = put_limit d t price m
  tree_with none m = insert_limit d t m

  -- The tree once the order is in it.
  abbrev pub joined_tree : List (KLimit F)
  joined_tree = tree_with (limit_at laws t key) joined

  module _ (in_range : d.in_range (h a).size ≡ true) where
    add_order-in_limit : (l : KLimit F) → (n : ℕ) × (add_order d h l a ≡ some (n, in_limit l))
    unfolding add_order
    add_order-in_limit l = elim (Option-cases (find_order h l.orders (h a).order_id)) [
      | inl e ↦ (1, ground (arith, e, in_range))
      | inr (c, e) ↦ (0, ground (arith, e))
    ]

    -- The conversion of the size is defined.
    pub add_to_tree-joined_tree : add_to_tree d h t a evt ≡ some joined_tree
    unfolding add_to_tree
    add_to_tree-joined_tree = at_limit (limit_at laws t key) (find_limit-limit_at laws t price)
      where
        at_limit :
            (o : Option (KLimit F))
            → find_limit d t price ≡ o
            → add_to_tree d h t a evt ≡ some (tree_with o (joined_to o))
        at_limit none e =
            let (n, done) = add_order-in_limit (set_update_time (new_limit price 0) (some evt)) in
            rw (add_to_tree, e) (ap (λ r. r >>= λ (_, m). some (insert_limit d t m)) done)
        at_limit (some l) e =
            let (n, done) = add_order-in_limit l in
            rw (add_to_tree, e)
              (ap (λ r. r >>= λ (_, m). some (put_limit d t price (set_update_time m (some evt))))
                done)

  joined_tree_new : limit_at laws t key ≡ none → joined_tree ≡ insert_limit d t joined
  joined_tree_new e = ap (λ o. tree_with o joined) e

  joined_tree_old :
      (l : KLimit F) → limit_at laws t key ≡ some l → joined_tree ≡ put_limit d t price joined
  joined_tree_old l e = ap (λ o. tree_with o joined) e

  pub limit_at-joined_tree :
      (j : ℕ) → limit_at laws joined_tree j ≡ (if key == j then some joined else limit_at laws t j)
  limit_at-joined_tree j = elim (Option-cases (limit_at laws t key)) [
    | inl e ↦
        ap (λ u. limit_at laws u j) (joined_tree_new e)
        ∙ limit_at-insert_limit laws joined t j (rw joined-rank e)
        ∙ ap (λ k. if k == j then some joined else limit_at laws t j) joined-rank
    | inr (l, e) ↦
        ap (λ u. limit_at laws u j) (joined_tree_old l e)
        ∙ limit_at-put_limit laws price joined joined-rank t j
        ∙ ground (arith, ap (limit_at laws t))
  ]

  pub joined_tree-Ascending : Ascending laws 0 t → Ascending laws 0 joined_tree
  joined_tree-Ascending s = elim (Option-cases (limit_at laws t key)) [
    | inl e ↦
        subst (Ascending laws 0) (sym (joined_tree_new e))
          (insert_limit-Ascending laws joined t 0 (omega arith) s)
    | inr (l, e) ↦
        subst (Ascending laws 0) (sym (joined_tree_old l e))
          (put_limit-Ascending laws price joined joined-rank t 0 s)
  ]

  joined_to-orders :
      (o : Option (KLimit F))
      → find_order h (orders_of o) (h a).order_id ≡ none
      → (joined_to o).orders ≡ orders_of o ++ (a ∷ [])
  unfolding set_update_time new_limit find_order
  joined_to-orders none e = refl
  joined_to-orders (some l) e = ground arith

  joined_to-volume :
      (o : Option (KLimit F))
      → find_order h (orders_of o) (h a).order_id ≡ none
      → ((l : KLimit F) → o ≡ some l → l.total_volume ≡ sum_sizes d (values h l.orders) % 2 ^ 32)
      → (joined_to o).total_volume
        ≡ (sum_sizes d (values h (orders_of o)) + d.to_u32 (h a).size) % 2 ^ 32
  unfolding set_update_time new_limit find_order sum_sizes
  joined_to-volume none e v = refl
  joined_to-volume (some l) e v = ground (arith, v l refl)

  module _ (absent : find_order h (orders_at laws t key) (h a).order_id ≡ none) where
    joined_orders : joined.orders ≡ orders_at laws t key ++ (a ∷ [])
    joined_orders = joined_to-orders (limit_at laws t key) absent

    -- The order comes last at its price, and no other price is touched.
    pub orders_at-joined_tree :
        (j : ℕ)
        → orders_at laws joined_tree j
          ≡ (if key == j then orders_at laws t j ++ (a ∷ []) else orders_at laws t j)
    orders_at-joined_tree j = elim (Bool-cases (key == j)) [
      | inl hit ↦
          let same : key ≡ j = ground arith in
          ap orders_of (limit_at-joined_tree j)
          ∙ rw hit (joined_orders ∙ ap (λ k. orders_at laws t k ++ (a ∷ [])) same)
      | inr miss ↦ ap orders_of (limit_at-joined_tree j) ∙ rw miss
    ]

    module _ (listed : ℕ → Option ℕ) (side : Side) (ok : OrderOk laws h listed side key a)
        (old : (l : KLimit F) → limit_at laws t key ≡ some l → LimitOk laws h listed side l) where
      old_at_rest :
          (o : Option (KLimit F))
          → limit_at laws t key ≡ o
          → All (OrderOk laws h listed side key) (orders_of o) × Distinct h (orders_of o)
      old_at_rest none e = (tt, tt)
      old_at_rest (some l) e =
          let v = old l e in
          (
            subst (λ k. All (OrderOk laws h listed side k) l.orders)
                (rank_of_limit_at laws t key l e) v.at_rest,
            v.distinct,
          )

      pub joined-LimitOk : LimitOk laws h listed side joined
      joined-LimitOk =
          let o = limit_at laws t key in
          let all = old_at_rest o refl in
          let orders = joined_to-orders o absent in
          record {
            some_orders = rw (orders, length-append (orders_of o) (a ∷ [])) (omega arith);
            volume =
                joined_to-volume o absent (λ l e. (old l e).volume)
                ∙ rw (orders, values-append, sum_sizes-append);
            at_rest =
                rw (orders, joined-rank)
                  (All-append (OrderOk laws h listed side key) (orders_of o) a ok all.0);
            distinct = rw orders (Distinct-append h (orders_of o) a absent all.1);
          }
