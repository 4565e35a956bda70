-- ===== src/Book/Levels.antt =====
-- The levels and the objects of the order map once an order has been resized.
use system_k_dev.Base.{
  ℕ, ◌≡◌, ◌≢◌, refl, ap, ◌&&◌, Option, none, some, List, ◌==◌, if◌then◌else◌, arith, subst,
  Bool-cases, inl, inr,
}
use system_k_dev.Double.{DoubleOps, DoubleLaws}
use system_k_dev.Book.Limit.{Side, bid, ask, no_side, KOrder, KLimit, Timespec, find_order}
use system_k_dev.Book.{KBook, get_order}
use system_k_dev.Book.Orders.{values, resize_id}
use system_k_dev.Book.Volume.{values-resized}
use system_k_dev.Book.Valid.{IsValid, orders_at, tree_of, level, All-orders_at}
use system_k_dev.Book.Insert.{same_side}
use system_k_dev.Book.Amend.{resized_heap, price, elsewhere, trees, modified}

module _ {F : Type 0} {d : DoubleOps F} (laws : DoubleLaws d) (b : KBook F) (v : IsValid laws b)
    (id a : ℕ) (size : F) (evt exch : Timespec) (entry : b.order_map id ≡ some a) where
  open laws use {rank}

  in_place :
      (side : Side) (k : ℕ)
      → (b.heap a).buy_sell ≡ side
      → rank (price laws b v id a size evt exch entry) ≡ k
      → find_order b.heap
          (orders_at laws (tree_of laws b side) (rank (price laws b v id a size evt exch entry)))
          id
        ≡ some a
      → values
          (resized_heap laws b v id a size evt exch entry)
          (orders_at laws (tree_of laws b side) k)
        ≡ resize_id id size (level laws b side k)
  in_place side k on here found =
      subst
        (λ j.
          values (resized_heap laws b v id a size evt exch entry)
            (orders_at laws (tree_of laws b side) j)
          ≡ resize_id id size (level laws b side j))
        here
        (values-resized b.heap _ id a size
          (All-orders_at laws b.heap b.order_map side (tree_of laws b side)
            (rank (price laws b v id a size evt exch entry))
            ((trees laws b v id a size evt exch entry) side)).1
          found)

  pub level_resized :
      (side s : Side) (k : ℕ)
      → (b.heap a).buy_sell ≡ side
      → side ≢ no_side
      → find_order b.heap
          (orders_at laws (tree_of laws b side) (rank (price laws b v id a size evt exch entry)))
          id
        ≡ some a
      → values
          (resized_heap laws b v id a size evt exch entry)
          (orders_at laws (tree_of laws b s) k)
        ≡ (if same_side side s && (rank (price laws b v id a size evt exch entry) == k)
            then resize_id id size (level laws b s k)
            else level laws b s k)
  level_resized bid bid k on ne found =
      elim (Bool-cases (rank (price laws b v id a size evt exch entry) == k)) [
        | inl t ↦ rw t (in_place bid k on (ground arith) found)
        | inr t ↦ rw t ((elsewhere laws b v id a size evt exch entry) bid k (inr (ground arith)))
      ]
  level_resized ask ask k on ne found =
      elim (Bool-cases (rank (price laws b v id a size evt exch entry) == k)) [
        | inl t ↦ rw t (in_place ask k on (ground arith) found)
        | inr t ↦ rw t ((elsewhere laws b v id a size evt exch entry) ask k (inr (ground arith)))
      ]
  level_resized bid ask k on ne found =
      (elsewhere laws b v id a size evt exch entry) ask k (inl (λ e. cc))
  level_resized bid no_side k on ne found =
      (elsewhere laws b v id a size evt exch entry) no_side k (inl (λ e. cc))
  level_resized ask bid k on ne found =
      (elsewhere laws b v id a size evt exch entry) bid k (inl (λ e. cc))
  level_resized ask no_side k on ne found =
      (elsewhere laws b v id a size evt exch entry) no_side k (inl (λ e. cc))
  level_resized no_side s k on ne found = absurd (ne refl)

  pub heap_after :
      (side : Side) (u : List (KLimit F))
      → side ≢ no_side
      → ((modified laws b v id a size evt exch entry) side u).heap
        ≡ (resized_heap laws b v id a size evt exch entry)
  heap_after bid u ne = refl
  heap_after ask u ne = refl
  heap_after no_side u ne = absurd (ne refl)

  get_order_same :
      (j : ℕ) (p : Option ℕ)
      → b.order_map j ≡ p
      → elim p as (λ x. Option (KOrder F)) [
        | none ↦ none
        | some c ↦ some ((resized_heap laws b v id a size evt exch entry) c)
      ]
        ≡ (if id == j
            then some (record (b.heap a) { size = size })
            else elim p as (λ x. Option (KOrder F)) [ none ↦ none | some c ↦ some (b.heap c) ])
  get_order_same j none e = ground (arith, ap b.order_map, entry)
  get_order_same j (some c) e = ground (
    arith,
    ap b.order_map,
    entry,
    (v.lists j c e).has_id,
    (v.lists id a entry).has_id,
    ap (λ i. (b.heap i).order_id),
  )

  pub get_order-modified :
      (side : Side) (u : List (KLimit F)) (j : ℕ)
      → side ≢ no_side
      → get_order ((modified laws b v id a size evt exch entry) side u) j
        ≡ (if id == j then some (record (b.heap a) { size = size }) else get_order b j)
  unfolding get_order
  get_order-modified bid u j ne = get_order_same j (b.order_map j) refl
  get_order-modified ask u j ne = get_order_same j (b.order_map j) refl
  get_order-modified no_side u j ne = absurd (ne refl)
