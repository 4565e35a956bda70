-- ===== src/Book/Resize.antt =====
-- What `KBook::modify` does to the tree that holds the order.
use system_k_dev.Base.{
  ℕ, ◌+◌, ◌-◌, ◌%◌, ◌^◌, ◌≡◌, refl, ap, ◌∙◌, true, Bool-cases, inl, inr, Option, some, List, ◌==◌,
  if◌then◌else◌, arith,
}
use system_k_dev.Double.{DoubleOps, DoubleLaws}
use system_k_dev.Book.Limit.{Side, KLimit, Heap, Timespec, find_order, modify_order}
use system_k_dev.Book.{put_limit}
use system_k_dev.Book.Tree.{
  limit_at, Ascending, rank_of_limit_at, limit_at-put_limit, put_limit-Ascending,
}
use system_k_dev.Book.Orders.{All-map, values}
use system_k_dev.Book.Volume.{
  sum_sizes, sum_sizes-resize_id, find_id-values, resized, resized-SameKeys, values-resized,
  Distinct-SameKeys,
}
use system_k_dev.Book.Valid.{found-in_range, OrderOk, LimitOk, orders_of, orders_at}

module _ {F : Type 0} {d : DoubleOps F} (laws : DoubleLaws d) (h : Heap F) (t : List (KLimit F))
    (price : F) (l : KLimit F) (id a : ℕ) (size : F) (time : Option Timespec)
    (at : limit_at laws t (laws.rank price) ≡ some l)
    (found : find_order h l.orders id ≡ some a) where
  open laws use {rank, to_u32_lt}

  abbrev pub grown : KLimit F
  grown = record l {
    total_volume =
        ((l.total_volume + 2 ^ 32 - d.to_u32 (h a).size) % 2 ^ 32 + d.to_u32 size) % 2 ^ 32;
    time_updated = time;
  }

  abbrev pub grown_tree : List (KLimit F)
  grown_tree = put_limit d t price grown

  pub modify_order-grown :
      d.in_range (h a).size ≡ true
      → d.in_range size ≡ true
      → modify_order d h l id size
        ≡ some (1, record grown { time_updated = l.time_updated }, resized h a size)
  unfolding modify_order
  modify_order-grown old new = rw (modify_order, found, old, new) refl

  grown-rank : rank grown.price ≡ rank price
  grown-rank = rank_of_limit_at laws t (rank price) l at

  pub limit_at-grown :
      (j : ℕ)
      → limit_at laws grown_tree j ≡ (if rank price == j then some grown else limit_at laws t j)
  limit_at-grown j =
      ground (arith, limit_at-put_limit laws price grown grown-rank t j, ap (limit_at laws t), at)

  pub grown-Ascending : Ascending laws 0 t → Ascending laws 0 grown_tree
  grown-Ascending = put_limit-Ascending laws price grown grown-rank t 0

  -- The orders of every price stay in their places.
  pub orders_at-grown : (j : ℕ) → orders_at laws grown_tree j ≡ orders_at laws t j
  orders_at-grown j =
      ap orders_of (limit_at-grown j)
      ∙ ground (arith, ap (λ k. orders_of (limit_at laws t k)), ap orders_of at)

  module _ (listed : ℕ → Option ℕ) (side : Side) (v : LimitOk laws h listed side l)
      (in_range : d.in_range size ≡ true) where
    pub grown-LimitOk : LimitOk laws (resized h a size) listed side grown
    grown-LimitOk = record {
      some_orders = v.some_orders;
      volume =
          let os = values h l.orders in
          omega (
            arith,
            v.volume,
            to_u32_lt (h a).size (found-in_range laws h listed side l id a v found),
            to_u32_lt size in_range,
            ap (sum_sizes d) (values-resized h l.orders id a size v.distinct found),
            sum_sizes-resize_id d os id (h a) size (find_id-values h l.orders id a found),
          );
      at_rest = All-map l.orders (λ c o. still c o) v.at_rest;
      distinct =
          Distinct-SameKeys (resized h a size) h l.orders (resized-SameKeys h a size) v.distinct;
    }
      where
        still :
            (c : ℕ)
            → OrderOk laws h listed side (rank l.price) c
            → OrderOk laws (resized h a size) listed side (rank l.price) c
        still c o =
            let (same_id, same_side, same_price) = resized-SameKeys h a size c in
            record {
              in_map = rw same_id o.in_map;
              on_side = same_side ∙ o.on_side;
              at_price = ap rank same_price ∙ o.at_price;
              in_range = elim (Bool-cases (a == c)) [
                | inl same ↦ ground (arith, same, in_range)
                | inr other ↦ ground (arith, other, o.in_range)
              ];
            }
