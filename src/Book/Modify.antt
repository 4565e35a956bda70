-- ===== src/Book/Modify.antt =====
-- `KBook::modify` on a valid book.
use system_k_dev.Base.{true, ℕ, ◌≡◌, refl, ap, ◌∙◌, ◌&&◌, none, some, ◌==◌, if◌then◌else◌, subst}
use system_k_dev.Double.{DoubleOps, DoubleLaws}
use system_k_dev.Book.Limit.{Side, KOrder, Timespec}
use system_k_dev.Book.{KBook, modify, get_order}
use system_k_dev.Book.Orders.{values, resize_id}
use system_k_dev.Book.Valid.{IsValid, tree_of, level, orders_at}
use system_k_dev.Book.Insert.{same_side}
use system_k_dev.Book.Withdraw.{limit_of_found}
use system_k_dev.Book.Remove.{has_side, entry_of}
use system_k_dev.Book.Amend.{after, modified-IsValid, modify-modified, orders_modified}
use system_k_dev.Book.Levels.{heap_after, level_resized, get_order-modified}

module _ {F : Type 0} {d : DoubleOps F} (laws : DoubleLaws d) (b : KBook F) where
  open laws use {rank}

  -- What `modify` leaves behind when the id stands for the order `o`.
  pub record Modified (id : ℕ) (o : KOrder F) (size : F) (b' : KBook F) : Type 0 where
    pub valid : IsValid laws b'
    pub levels :
        (s : Side) (k : ℕ)
        → level laws b' s k ≡ (
            if same_side o.buy_sell s && (rank o.price == k)
            then resize_id id size (level laws b s k)
            else level laws b s k)
    pub orders :
        (j : ℕ)
        → get_order b' j ≡ (if id == j then some (record o { size = size }) else get_order b j)

  modify_entry :
      (id a : ℕ) (size : F) (evt exch : Timespec)
      → IsValid laws b
      → b.order_map id ≡ some a
      → d.in_range size ≡ true
      → (b' : KBook F) × (modify d b id size evt exch ≡ some (1, b'))
        × Modified id (b.heap a) size b'
  modify_entry id a size evt exch v entry in_range =
      let listed = v.lists id a entry in
      let (l, at, found) = limit_of_found b.heap _ id a listed.found in
      let side = (b.heap a).buy_sell in
      let real = has_side laws b id a listed in
      (
        after laws b v id a size evt exch entry side refl l at found,
        modify-modified laws b v id a size evt exch entry side refl l at found in_range,
        record {
          valid = modified-IsValid laws b v id a size evt exch entry side refl l at found in_range;
          levels = λ s k.
              ap
                (λ h. values h (
                  orders_at laws
                    (tree_of laws (after laws b v id a size evt exch entry side refl l at found) s)
                    k))
                (heap_after laws b v id a size evt exch entry side _ real)
              ∙ rw (orders_modified laws b v id a size evt exch entry side s k refl l at found)
                  (level_resized laws b v id a size evt exch entry side s k refl real listed.found);
          orders = λ j. get_order-modified laws b v id a size evt exch entry side _ j real;
        },
      )

  -- Modifying a listed order of a valid book, to a size that can be converted to uint32_t, meets no undefined behaviour, returns 1, keeps the
  -- book valid, gives the order its new size in its place of its level, leaves every other level
  -- alone, and makes the id stand for the resized order.
  pub modify_present :
      (id : ℕ) (o : KOrder F) (size : F) (evt exch : Timespec)
      → IsValid laws b
      → get_order b id ≡ some o
      → d.in_range size ≡ true
      → (b' : KBook F) × (modify d b id size evt exch ≡ some (1, b')) × Modified id o size b'
  modify_present id o size evt exch v e in_range =
      let (a, entry, here) = entry_of b id o e in
      subst
        (λ (x : KOrder F).
          (b' : KBook F) × (modify d b id size evt exch ≡ some (1, b')) × Modified id x size b')
        here (modify_entry id a size evt exch v entry in_range)

  -- An id that stands for no order makes `modify` return 0 and record the send time only.
  pub modify_absent :
      (id : ℕ) (size : F) (evt exch : Timespec)
      → b.order_map id ≡ none
      → modify d b id size evt exch ≡ some (0, record b { exch_snd_time = some exch })
  unfolding modify
  modify_absent id size evt exch e = rw (e, modify)
