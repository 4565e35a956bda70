-- ===== src/Book/Withdraw.antt =====
-- The trees and the order map once an order has left the book.
use mathlib.Core.Option.{some-injective}
use system_k_dev.Base.{
  ℕ, ◌<◌, ◌≡◌, ◌≢◌, refl, ap, ◌∙◌, sym, Bool, true, false, ◌&&◌, Option, none, some, List, ◌==◌,
  if◌then◌else◌, arith, subst, inl, inr, length, ◌⊎◌,
}
use system_k_dev.Double.{DoubleOps, DoubleLaws}
use system_k_dev.Book.Limit.{
  Side, bid, ask, no_side, KLimit, Heap, Timespec, find_order, update, erase_order,
}
use system_k_dev.Book.{KBook, remove, get_order}
use system_k_dev.Book.Tree.{limit_at, find_limit-limit_at}
use system_k_dev.Book.Orders.{values, values-erase_order, drop_id, find_order-erase_order}
use system_k_dev.Book.Valid.{
  found-in_range, OrderOk, LimitOk, TreeOk, TreeOk-frame, TreeOk-change, IsValid, orders_of,
  orders_at, tree_of, level, All-orders_at, TreeOk-nil,
}
use system_k_dev.Book.Insert.{same_side, update_other}
use system_k_dev.Book.Leave.{
  left, left_tree, remove_from_tree-left, limit_at-left, left-Ascending, orders_at-left,
  left-LimitOk,
}

pub limit_of_found :
    {F : Type 0} (h : Heap F) (o : Option (KLimit F)) (id a : ℕ)
    → find_order h (orders_of o) id ≡ some a
    → (l : KLimit F) × (o ≡ some l) × (find_order h l.orders id ≡ some a)
unfolding find_order
limit_of_found h none id a e = cc
limit_of_found h (some l) id a e = (l, refl, e)

pub absurd_none : {A : Type 0} {x : A} {P : Type 0} → none ≡ some x → P
absurd_none e = cc

if_some :
    {A : Type 0} (c : Bool) (x y : A)
    → (if c then none else some x) ≡ some y
    → (c ≡ false) × (x ≡ y)
if_some true x y e = absurd_none e
if_some false x y e = (refl, some-injective _ _ e)

module _ {F : Type 0} {d : DoubleOps F} (laws : DoubleLaws d) (b : KBook F) (v : IsValid laws b)
    (id a : ℕ) (evt exch : Timespec) (entry : b.order_map id ≡ some a) where
  open laws use {rank}

  abbrev pub gone : ℕ → Option ℕ
  gone = update b.order_map id none

  abbrev pub price : F
  price = (b.heap a).price

  -- Orders elsewhere stay listed.
  kept :
      (side : Side) (j c : ℕ)
      → (((b.heap a).buy_sell ≢ side) ⊎ (rank price ≢ j))
      → OrderOk laws b.heap b.order_map side j c
      → (b.heap c ≡ b.heap c) × (gone (b.heap c).order_id ≡ some c)
  kept side j c apart o =
      let other : (id ≡ (b.heap c).order_id) → ⊥ = λ e.
        let same : a ≡ c = some-injective _ _ (sym entry ∙ ap b.order_map e ∙ o.in_map) in
        elim apart [
          | inl s ↦ s (ap (λ i. (b.heap i).buy_sell) same ∙ o.on_side)
          | inr k ↦ k (ap (λ i. rank (b.heap i).price) same ∙ o.at_price)
        ] in
      (refl, update_other b.order_map id _ none other ∙ o.in_map)

  module _ (side : Side) (t : List (KLimit F)) (w : TreeOk laws b.heap b.order_map side t) where
    untouched : (b.heap a).buy_sell ≢ side → TreeOk laws b.heap gone side t
    untouched other =
        TreeOk-frame laws b.heap b.heap gone b.order_map side t w
          λ j c o. kept side j c (inl other) o

    module _ (l : KLimit F) (at : limit_at laws t (rank price) ≡ some l)
        (found : find_order b.heap l.orders id ≡ some a) where
      abbrev shrunk : List (KLimit F)
      shrunk = left_tree laws b.heap t price l id a evt at found

      shrunk-TreeOk : TreeOk laws b.heap gone side shrunk
      shrunk-TreeOk =
          TreeOk-change laws b.heap b.heap gone b.order_map side t shrunk (rank price) _ w
            (left-Ascending laws b.heap t price l id a evt at found w.sorted)
            (limit_at-left laws b.heap t price l id a evt at found w.sorted)
            (λ l' e.
              let (some_left, same) =
                if_some (length (erase_order b.heap l.orders id) == 0)
                  (left laws b.heap t price l id a evt at found) l' e in
              subst (LimitOk laws b.heap gone side) same (
                left-LimitOk laws b.heap t price l id a evt at found b.order_map side
                  (w.limits (rank price) l at) (ground (arith, some_left))))
            (λ j c apart o. kept side j c (inr apart) o)

  abbrev pub base : KBook F
  base = record b { exch_snd_time = some exch; order_map = gone; evt_time = some evt }

  -- The book after the call, with what the order's tree has become.
  abbrev pub removed : Side → List (KLimit F) → KBook F
  removed bid u = record base { bid_tree = u }
  removed ask u = record base { ask_tree = u }
  removed no_side u = b

  trees : (side : Side) → TreeOk laws b.heap b.order_map side (tree_of laws b side)
  trees bid = v.bids
  trees ask = v.asks
  trees no_side = TreeOk-nil laws b.heap b.order_map no_side

  module _ (l : KLimit F) where
    abbrev pub shrunk_at :
        (side : Side)
        → limit_at laws (tree_of laws b side) (rank price) ≡ some l
        → find_order b.heap l.orders id ≡ some a
        → List (KLimit F)
    shrunk_at side at found = left_tree laws b.heap (tree_of laws b side) price l id a evt at found

    pub remove-removed :
        (side : Side) (at : limit_at laws (tree_of laws b side) (rank price) ≡ some l)
        (found : find_order b.heap l.orders id ≡ some a)
        → (b.heap a).buy_sell ≡ side
        → remove d b id evt exch ≡ some (1, removed side (shrunk_at side at found))
    unfolding remove limit_at
    remove-removed bid at found on = rw (
      remove,
      entry,
      on,
      find_limit-limit_at laws b.bid_tree price,
      at,
      remove_from_tree-left laws b.heap b.bid_tree price l id a evt at found (
          found-in_range laws b.heap b.order_map bid l id a (v.bids.limits (rank price) l at)
            found),
    )
    remove-removed ask at found on = rw (
      remove,
      entry,
      on,
      find_limit-limit_at laws b.ask_tree price,
      at,
      remove_from_tree-left laws b.heap b.ask_tree price l id a evt at found (
          found-in_range laws b.heap b.order_map ask l id a (v.asks.limits (rank price) l at)
            found),
    )
    remove-removed no_side at found on = absurd_none at

    orders_removed :
        (side s : Side) (k : ℕ) (at : limit_at laws (tree_of laws b side) (rank price) ≡ some l)
        (found : find_order b.heap l.orders id ≡ some a)
        → orders_at laws (tree_of laws (removed side (shrunk_at side at found)) s) k ≡ (
            if same_side side s && (rank price == k)
            then erase_order b.heap (orders_at laws (tree_of laws b s) k) id
            else orders_at laws (tree_of laws b s) k)
    orders_removed bid bid k at found =
        orders_at-left laws b.heap b.bid_tree price l id a evt at found v.bids.sorted k
    orders_removed bid ask k at found = refl
    orders_removed bid no_side k at found = refl
    orders_removed ask bid k at found = refl
    orders_removed ask ask k at found =
        orders_at-left laws b.heap b.ask_tree price l id a evt at found v.asks.sorted k
    orders_removed ask no_side k at found = refl
    orders_removed no_side s k at found = refl

    lists_removed :
        (side : Side) (at : limit_at laws (tree_of laws b side) (rank price) ≡ some l)
        (found : find_order b.heap l.orders id ≡ some a) (j c : ℕ)
        → gone j ≡ some c
        → (c < b.fresh)
          × ((b.heap c).order_id ≡ j)
          × (find_order b.heap
                (orders_at laws
                  (tree_of laws (removed side (shrunk_at side at found)) (b.heap c).buy_sell)
                  (rank (b.heap c).price))
                j
              ≡ some c)
    lists_removed side at found j c e =
        let other : (id ≡ j) → ⊥ = λ same. absurd_none (sym (ground (arith, same)) ∙ e) in
        let o = v.lists j c (sym (update_other b.order_map id j none other) ∙ e) in
        (
          o.old,
          o.has_id,
          rw (orders_removed side (b.heap c).buy_sell (rank (b.heap c).price) at found) (
              ground (
                arith,
                o.found,
                find_order-erase_order b.heap
                    (orders_at laws (tree_of laws b (b.heap c).buy_sell) (rank (b.heap c).price)) id
                    j
                    (All-orders_at laws b.heap b.order_map (b.heap c).buy_sell
                      (tree_of laws b (b.heap c).buy_sell) (rank (b.heap c).price)
                      (trees (b.heap c).buy_sell)).1,
              )),
        )

    pub removed-IsValid :
        (side : Side) (at : limit_at laws (tree_of laws b side) (rank price) ≡ some l)
        (found : find_order b.heap l.orders id ≡ some a)
        → (b.heap a).buy_sell ≡ side
        → IsValid laws (removed side (shrunk_at side at found))
    unfolding limit_at
    removed-IsValid bid at found on = record {
      bids = shrunk-TreeOk bid b.bid_tree v.bids l at found;
      asks = untouched ask b.ask_tree v.asks (λ e. cc);
      lists = λ j c e.
          let (old, has_id, f) = lists_removed bid at found j c e in
          record { old = old; has_id = has_id; found = f };
    }
    removed-IsValid ask at found on = record {
      bids = untouched bid b.bid_tree v.bids (λ e. cc);
      asks = shrunk-TreeOk ask b.ask_tree v.asks l at found;
      lists = λ j c e.
          let (old, has_id, f) = lists_removed ask at found j c e in
          record { old = old; has_id = has_id; found = f };
    }
    removed-IsValid no_side at found on = absurd_none at

    pub level-removed :
        (side s : Side) (k : ℕ) (at : limit_at laws (tree_of laws b side) (rank price) ≡ some l)
        (found : find_order b.heap l.orders id ≡ some a)
        → level laws (removed side (shrunk_at side at found)) s k ≡ (
            if same_side side s && (rank price == k)
            then drop_id id (level laws b s k)
            else level laws b s k)
    level-removed side s k at found =
        ap
          (λ (g : Heap F).
            values g (orders_at laws (tree_of laws (removed side (shrunk_at side at found)) s) k))
          (heap_removed side (shrunk_at side at found))
        ∙ rw (orders_removed side s k at found)
            (ground (arith, values-erase_order b.heap (orders_at laws (tree_of laws b s) k) id))
      where
        heap_removed : (s : Side) (u : List (KLimit F)) → (removed s u).heap ≡ b.heap
        heap_removed bid u = refl
        heap_removed ask u = refl
        heap_removed no_side u = refl

    pub get_order-removed :
        (side : Side) (u : List (KLimit F)) (j : ℕ)
        → side ≢ no_side
        → get_order (removed side u) j ≡ (if id == j then none else get_order b j)
    unfolding get_order
    get_order-removed bid u j ne = ground arith
    get_order-removed ask u j ne = ground arith
    get_order-removed no_side u j ne = absurd (ne refl)
