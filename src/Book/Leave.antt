-- ===== src/Book/Leave.antt =====
-- What `KBook::remove` does to the tree that holds the order.
use system_k_dev.Base.{
  ℕ, ◌+◌, ◌-◌, ◌%◌, ◌^◌, ◌<◌, ◌≡◌, ◌≢◌, refl, ap, ◌∙◌, true, Option, none, some, List, [], ◌∷◌,
  ◌==◌, if◌then◌else◌, arith, length, Bool-cases, inl, inr,
}
use system_k_dev.Double.{DoubleOps, DoubleLaws}
use system_k_dev.Book.Limit.{
  Side, KLimit, Heap, Timespec, find_order, erase_order, set_update_time, remove_order,
  get_order_count, update,
}
use system_k_dev.Book.{remove_from_tree, put_limit, erase_limit}
use system_k_dev.Book.Tree.{
  limit_at, Ascending, rank_of_limit_at, limit_at-put_limit, put_limit-Ascending,
  limit_at-erase_limit, erase_limit-Ascending,
}
use system_k_dev.Book.Orders.{
  All-zip, All-erase_order, ids_differ, Distinct-erase_order, find_order-erase_order,
  find_order-some, values, values-erase_order,
}
use system_k_dev.Book.Volume.{sum_sizes, sum_sizes-drop_id, find_id-values}
use system_k_dev.Book.Valid.{found-in_range, OrderOk, LimitOk, orders_of, orders_at}

empty_of_length : (xs : List ℕ) → length xs ≡ 0 → xs ≡ []
empty_of_length [] e = refl
empty_of_length (x ∷ xs) e = absurd (omega arith)

module _ {F : Type 0} {d : DoubleOps F} (laws : DoubleLaws d) (h : Heap F) (t : List (KLimit F))
    (price : F) (l : KLimit F) (id a : ℕ) (evt : Timespec)
    (at : limit_at laws t (laws.rank price) ≡ some l)
    (found : find_order h l.orders id ≡ some a) where
  open laws use {rank, to_u32_lt}

  abbrev pub left : KLimit F
  left = record l {
    total_volume = (l.total_volume + 2 ^ 32 - d.to_u32 (h a).size) % 2 ^ 32;
    orders = erase_order h l.orders id;
    time_updated = some evt;
  }

  abbrev pub left_tree : List (KLimit F)
  left_tree = if length left.orders == 0 then erase_limit d t price else put_limit d t price left

  module _ (in_range : d.in_range (h a).size ≡ true) where
    remove_order-left :
        remove_order d h l id ≡ some (1, record left { time_updated = l.time_updated })
    unfolding remove_order
    remove_order-left = ground (arith, find_order-some h l.orders id a found, in_range)

    -- The assertion holds.
    pub remove_from_tree-left : remove_from_tree d h t price l id evt ≡ some left_tree
    unfolding remove_from_tree set_update_time get_order_count
    remove_from_tree-left = rw remove_order-left

  left-rank : rank left.price ≡ rank price
  left-rank = rank_of_limit_at laws t (rank price) l at

  module _ (sorted : Ascending laws 0 t) where
    pub limit_at-left :
        (j : ℕ)
        → limit_at laws left_tree j ≡ (
            if rank price == j
            then (if length left.orders == 0 then none else some left)
            else limit_at laws t j)
    limit_at-left j = ground (
      arith,
      limit_at-erase_limit laws price t 0 j sorted,
      limit_at-put_limit laws price left left-rank t j,
      ap (limit_at laws t),
      at,
    )

    pub left-Ascending : Ascending laws 0 left_tree
    left-Ascending = elim (Bool-cases (length left.orders == 0)) [
      | inl e ↦ rw e (erase_limit-Ascending laws price t 0 sorted)
      | inr e ↦ rw e (put_limit-Ascending laws price left left-rank t 0 sorted)
    ]

    -- The order leaves its price, and no other price is touched.
    pub orders_at-left :
        (j : ℕ)
        → orders_at laws left_tree j
          ≡ (if rank price == j then erase_order h (orders_at laws t j) id else orders_at laws t j)
    orders_at-left j =
        ap orders_of (limit_at-left j)
        ∙ ground (
          arith,
          empty_of_length (erase_order h l.orders id),
          ap (λ k. orders_of (limit_at laws t k)),
          ap orders_of at,
        )

  module _ (listed : ℕ → Option ℕ) (side : Side) (v : LimitOk laws h listed side l) where
    pub left-LimitOk : 0 < length left.orders → LimitOk laws h (update listed id none) side left
    left-LimitOk some_left = record {
      some_orders = some_left;
      volume =
          let os = values h l.orders in
          omega (
            arith,
            v.volume,
            to_u32_lt (h a).size (found-in_range laws h listed side l id a v found),
            ap (sum_sizes d) (values-erase_order h l.orders id),
            sum_sizes-drop_id d os id (h a) (find_id-values h l.orders id a found),
          );
      at_rest =
          All-zip left.orders (λ c other o. still c other o)
            (ids_differ h left.orders id
              (find_order-erase_order h l.orders id id v.distinct ∙ ground arith))
            (All-erase_order (OrderOk laws h listed side (rank l.price)) h l.orders id v.at_rest);
      distinct = Distinct-erase_order h l.orders id v.distinct;
    }
      where
        still :
            (c : ℕ)
            → (h c).order_id ≢ id
            → OrderOk laws h listed side (rank l.price) c
            → OrderOk laws h (update listed id none) side (rank l.price) c
        still c other o = record {
          in_map = ground (arith, o.in_map);
          on_side = o.on_side;
          at_price = o.at_price;
          in_range = o.in_range;
        }
