-- ===== src/Book/Amend.antt =====
-- The trees, the heap and the objects once an order has been resized in the book.
use mathlib.Core.Option.{some-injective}
use system_k_dev.Base.{
  ℕ, ◌<◌, ◌≡◌, ◌≢◌, refl, ap, ◌∙◌, true, ◌>>=◌, some, List, subst, inl, inr, ◌⊎◌,
}
use system_k_dev.Double.{DoubleOps, DoubleLaws}
use system_k_dev.Book.Limit.{
  Side, bid, ask, no_side, KLimit, Heap, Timespec, find_order, update, set_update_time,
}
use system_k_dev.Book.{KBook, modify, modify_limit}
use system_k_dev.Book.Tree.{limit_at, find_limit-limit_at}
use system_k_dev.Book.Orders.{All-map, values}
use system_k_dev.Book.Volume.{values-Agree, resized, resized-SameKeys, find_order-SameKeys}
use system_k_dev.Book.Valid.{
  found-in_range, OrderOk, LimitOk, TreeOk, TreeOk-frame, TreeOk-change, IsValid, orders_at,
  tree_of, level, All-orders_at, TreeOk-nil,
}
use system_k_dev.Book.Insert.{update_other}
use system_k_dev.Book.Withdraw.{absurd_none}
use system_k_dev.Book.Resize.{
  grown, grown_tree, modify_order-grown, limit_at-grown, grown-Ascending, orders_at-grown,
  grown-LimitOk,
}

module _ {F : Type 0} {d : DoubleOps F} (laws : DoubleLaws d) (b : KBook F) (v : IsValid laws b)
    (id a : ℕ) (size : F) (evt exch : Timespec) (entry : b.order_map id ≡ some a) where
  open laws use {rank}

  abbrev pub resized_heap : Heap F
  resized_heap = resized b.heap a size

  abbrev pub price : F
  price = (b.heap a).price

  -- The same heap, with the side of the order written out.
  abbrev pub resized_as : Side → Heap F
  resized_as s = update b.heap a (record (b.heap a) { size = size; buy_sell = s })

  -- The orders elsewhere are other objects.
  kept :
      (side : Side) (j c : ℕ)
      → (((b.heap a).buy_sell ≢ side) ⊎ (rank price ≢ j))
      → OrderOk laws b.heap b.order_map side j c
      → (resized_heap c ≡ b.heap c) × (b.order_map (b.heap c).order_id ≡ some c)
  kept side j c apart o =
      let other : (a ≡ c) → ⊥ = λ same. elim apart [
        | inl s ↦ s (ap (λ i. (b.heap i).buy_sell) same ∙ o.on_side)
        | inr k ↦ k (ap (λ i. rank (b.heap i).price) same ∙ o.at_price)
      ] in
      (update_other b.heap a c (record (b.heap a) { size = size }) other, o.in_map)

  pub trees : (side : Side) → TreeOk laws b.heap b.order_map side (tree_of laws b side)
  trees bid = v.bids
  trees ask = v.asks
  trees no_side = TreeOk-nil laws b.heap b.order_map no_side

  -- The book after the call, with what the order's tree has become.
  abbrev pub modified : Side → List (KLimit F) → KBook F
  modified bid u = record b {
    exch_snd_time = some exch;
    heap = resized_heap;
    bid_tree = u;
    evt_time = some evt;
  }
  modified ask u = record b {
    exch_snd_time = some exch;
    heap = resized_heap;
    ask_tree = u;
    evt_time = some evt;
  }
  modified no_side u = b

  untouched :
      (s : Side)
      → (b.heap a).buy_sell ≢ s
      → TreeOk laws resized_heap b.order_map s (tree_of laws b s)
  untouched s other =
      TreeOk-frame laws resized_heap b.heap b.order_map b.order_map s _ (trees s)
        λ j c o. kept s j c (inl other) o

  pub elsewhere :
      (s : Side) (k : ℕ)
      → (((b.heap a).buy_sell ≢ s) ⊎ (rank price ≢ k))
      → values resized_heap (orders_at laws (tree_of laws b s) k) ≡ level laws b s k
  elsewhere s k apart = values-Agree _ _ _ (
      All-map (orders_at laws (tree_of laws b s) k) (λ c o. (kept s k c apart o).0)
        (All-orders_at laws b.heap b.order_map s (tree_of laws b s) k (trees s)).0)

  module _ (side : Side) (on : (b.heap a).buy_sell ≡ side) (l : KLimit F)
      (at : limit_at laws (tree_of laws b side) (rank price) ≡ some l)
      (found : find_order b.heap l.orders id ≡ some a) where
    abbrev pub tree : List (KLimit F)
    tree = grown_tree laws b.heap (tree_of laws b side) price l id a size b.evt_time at found

    tree-TreeOk : d.in_range size ≡ true → TreeOk laws resized_heap b.order_map side tree
    tree-TreeOk in_range =
        TreeOk-change laws resized_heap b.heap b.order_map b.order_map side (tree_of laws b side)
          tree (rank price) _ (trees side)
          (grown-Ascending laws b.heap (tree_of laws b side) price l id a size b.evt_time at found
            (trees side).sorted)
          (limit_at-grown laws b.heap (tree_of laws b side) price l id a size b.evt_time at found)
          (λ l' e. subst (LimitOk laws resized_heap b.order_map side) (some-injective _ _ e) (
            grown-LimitOk laws b.heap (tree_of laws b side) price l id a size b.evt_time at found
              b.order_map side ((trees side).limits (rank price) l at) in_range))
          (λ j c apart o. kept side j c (inr apart) o)

    modify_limit-grown :
        d.in_range size ≡ true
        → modify_limit d b l id size
          ≡ some (
            grown laws b.heap (tree_of laws b side) price l id a size b.evt_time at found,
            resized_heap,
          )
    unfolding modify_limit set_update_time
    modify_limit-grown in_range =
        ap (λ r. r >>= λ (_, m, h). some (set_update_time m b.evt_time, h))
          (modify_order-grown laws b.heap (tree_of laws b side) price l id a size b.evt_time at
            found
            (found-in_range laws b.heap b.order_map side l id a
              ((trees side).limits (rank price) l at) found)
            in_range)

  pub orders_modified :
      (side s : Side) (k : ℕ) (on : (b.heap a).buy_sell ≡ side) (l : KLimit F)
      (at : limit_at laws (tree_of laws b side) (rank price) ≡ some l)
      (found : find_order b.heap l.orders id ≡ some a)
      → orders_at laws (tree_of laws (modified side (tree side on l at found)) s) k
        ≡ orders_at laws (tree_of laws b s) k
  orders_modified bid bid k on l at found =
      orders_at-grown laws b.heap b.bid_tree price l id a size b.evt_time at found k
  orders_modified bid ask k on l at found = refl
  orders_modified bid no_side k on l at found = refl
  orders_modified ask bid k on l at found = refl
  orders_modified ask ask k on l at found =
      orders_at-grown laws b.heap b.ask_tree price l id a size b.evt_time at found k
  orders_modified ask no_side k on l at found = refl
  orders_modified no_side s k on l at found = refl

  module _ (side : Side) (on : (b.heap a).buy_sell ≡ side) (l : KLimit F)
      (at : limit_at laws (tree_of laws b side) (rank price) ≡ some l)
      (found : find_order b.heap l.orders id ≡ some a) where
    abbrev pub after : KBook F
    after = modified side (tree side on l at found)

    lists_modified :
        (j c : ℕ)
        → b.order_map j ≡ some c
        → (c < b.fresh)
          × ((resized_heap c).order_id ≡ j)
          × (find_order resized_heap
                (orders_at laws
                  (tree_of laws after (resized_heap c).buy_sell)
                  (rank (resized_heap c).price))
                j
              ≡ some c)
    lists_modified j c e =
        let o = v.lists j c e in
        let keys = resized-SameKeys b.heap a size in
        let (same_id, same_buy, same_price) = keys c in
        (
          o.old,
          same_id ∙ o.has_id,
          rw
              (
                same_buy,
                same_price,
                orders_modified side (b.heap c).buy_sell (rank (b.heap c).price) on l at found,
              )
              (find_order-SameKeys resized_heap b.heap _ j keys ∙ o.found),
        )

  pub modified-IsValid :
      (side : Side) (on : (b.heap a).buy_sell ≡ side) (l : KLimit F)
      (at : limit_at laws (tree_of laws b side) (rank price) ≡ some l)
      (found : find_order b.heap l.orders id ≡ some a)
      → d.in_range size ≡ true
      → IsValid laws (after side on l at found)
  modified-IsValid bid on l at found in_range = record {
    bids = tree-TreeOk bid on l at found in_range;
    asks = untouched ask (λ e. cc);
    lists = λ j c e.
        let (old, has_id, f) = lists_modified bid on l at found j c e in
        record { old = old; has_id = has_id; found = f };
  }
  modified-IsValid ask on l at found in_range = record {
    bids = untouched bid (λ e. cc);
    asks = tree-TreeOk ask on l at found in_range;
    lists = λ j c e.
        let (old, has_id, f) = lists_modified ask on l at found j c e in
        record { old = old; has_id = has_id; found = f };
  }
  modified-IsValid no_side on l at found in_range = v

  pub modify-modified :
      (side : Side) (on : (b.heap a).buy_sell ≡ side) (l : KLimit F)
      (at : limit_at laws (tree_of laws b side) (rank price) ≡ some l)
      (found : find_order b.heap l.orders id ≡ some a)
      → d.in_range size ≡ true
      → modify d b id size evt exch ≡ some (1, after side on l at found)
  unfolding modify limit_at
  modify-modified bid on l at found in_range =
      rw
        (
          modify,
          entry,
          on,
          find_limit-limit_at laws b.bid_tree price,
          at,
          modify_limit-grown bid on l at found in_range,
        )
        (ap (λ s. some (1, record (after bid on l at found) { heap = resized_as s })) on)
  modify-modified ask on l at found in_range =
      rw
        (
          modify,
          entry,
          on,
          find_limit-limit_at laws b.ask_tree price,
          at,
          modify_limit-grown ask on l at found in_range,
        )
        (ap (λ s. some (1, record (after ask on l at found) { heap = resized_as s })) on)
  modify-modified no_side on l at found in_range = absurd_none at
