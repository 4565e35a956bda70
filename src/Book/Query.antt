-- ===== src/Book/Query.antt =====
-- The volume and the order count at a price of a valid book.
use system_k_dev.Base.{
  ℕ, ◌%◌, ◌^◌, ◌≡◌, refl, sym, Option, none, some, List, length, inl, inr, Option-cases, length-map,
}
use system_k_dev.Double.{DoubleOps, DoubleLaws}
use system_k_dev.Book.Limit.{Side, bid, ask, no_side, KLimit, Heap, get_order_count}
use system_k_dev.Book.{KBook, get_total_volume_at_limit, get_order_count_at_limit}
use system_k_dev.Book.Tree.{limit_at, find_limit-limit_at}
use system_k_dev.Book.Orders.{values}
use system_k_dev.Book.Volume.{sum_sizes}
use system_k_dev.Book.Valid.{TreeOk, IsValid, orders_at, level}

module _ {F : Type 0} {d : DoubleOps F} (laws : DoubleLaws d) where
  open laws use {rank}

  module _ (h : Heap F) (m : ℕ → Option ℕ) (side : Side) (t : List (KLimit F))
      (w : TreeOk laws h m side t) where
    volume_in :
        (k : ℕ)
        → elim (limit_at laws t k) as (λ _. ℕ) [ some l ↦ l.total_volume | none ↦ 0 ]
          ≡ sum_sizes d (values h (orders_at laws t k)) % 2 ^ 32
    unfolding sum_sizes
    volume_in k = elim (Option-cases (limit_at laws t k)) [
      | inl e ↦ rw e refl
      | inr (l, e) ↦ rw e (w.limits k l e).volume
    ]

    count_in :
        (k : ℕ)
        → elim (limit_at laws t k) as (λ _. ℕ) [ some l ↦ get_order_count l | none ↦ 0 ]
          ≡ length (values h (orders_at laws t k))
    unfolding get_order_count
    count_in k = elim (Option-cases (limit_at laws t k)) [
      | inl e ↦ rw e refl
      | inr (l, e) ↦ rw e (sym (length-map l.orders h))
    ]

  module _ (b : KBook F) (v : IsValid laws b) where
    -- On a valid book the volume at a price is the sum of the sizes of its orders, as a uint32_t.
    pub get_total_volume_at_limit-sum_sizes :
        (side : Side) (price : F)
        → get_total_volume_at_limit d b side price
          ≡ sum_sizes d (level laws b side (rank price)) % 2 ^ 32
    unfolding get_total_volume_at_limit limit_at sum_sizes
    get_total_volume_at_limit-sum_sizes bid price =
        rw (get_total_volume_at_limit, find_limit-limit_at laws b.bid_tree price)
          (volume_in b.heap b.order_map bid b.bid_tree v.bids (rank price))
    get_total_volume_at_limit-sum_sizes ask price =
        rw (get_total_volume_at_limit, find_limit-limit_at laws b.ask_tree price)
          (volume_in b.heap b.order_map ask b.ask_tree v.asks (rank price))
    get_total_volume_at_limit-sum_sizes no_side price = refl

    -- On a valid book the order count at a price is the number of orders of its level.
    pub get_order_count_at_limit-length :
        (side : Side) (price : F)
        → get_order_count_at_limit d b side price ≡ length (level laws b side (rank price))
    unfolding get_order_count_at_limit limit_at
    get_order_count_at_limit-length bid price =
        rw (get_order_count_at_limit, find_limit-limit_at laws b.bid_tree price)
          (count_in b.heap b.order_map bid b.bid_tree v.bids (rank price))
    get_order_count_at_limit-length ask price =
        rw (get_order_count_at_limit, find_limit-limit_at laws b.ask_tree price)
          (count_in b.heap b.order_map ask b.ask_tree v.asks (rank price))
    get_order_count_at_limit-length no_side price = refl
