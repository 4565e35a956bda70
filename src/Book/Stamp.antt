-- ===== src/Book/Stamp.antt =====
-- The times that `KBook::modify` records.
use system_k_dev.Base.{true, ℕ, ◌≡◌, ◌≢◌, refl, ◌∙◌, some, arith, subst}
use system_k_dev.Double.{DoubleOps, DoubleLaws}
use system_k_dev.Book.Limit.{Side, bid, ask, no_side, KOrder, KLimit, Timespec, find_order}
use system_k_dev.Book.{KBook, modify, get_order}
use system_k_dev.Book.Tree.{limit_at}
use system_k_dev.Book.Valid.{IsValid, tree_of}
use system_k_dev.Book.Withdraw.{limit_of_found}
use system_k_dev.Book.Remove.{has_side, entry_of}
use system_k_dev.Book.Resize.{grown, limit_at-grown}
use system_k_dev.Book.Amend.{after, modify-modified}

module _ {F : Type 0} {d : DoubleOps F} (laws : DoubleLaws d) (b : KBook F) where
  open laws use {rank}

  -- The call succeeds, and the order's limit has the event time from before it.
  Stamped : (id : ℕ) → KOrder F → (size : F) → (evt exch : Timespec) → Type 0
  Stamped id o size evt exch =
      (b' : KBook F) × (m : KLimit F) × (modify d b id size evt exch ≡ some (1, b'))
      × (b'.evt_time ≡ some evt)
      × (limit_at laws (tree_of laws b' o.buy_sell) (rank o.price) ≡ some m)
      × (m.time_updated ≡ b.evt_time)

  module _ (v : IsValid laws b) (id a : ℕ) (size : F) (evt exch : Timespec)
      (entry : b.order_map id ≡ some a) (l : KLimit F)
      (found : find_order b.heap l.orders id ≡ some a) where
    stamped_at :
        (side : Side) (on : (b.heap a).buy_sell ≡ side)
        (at : limit_at laws (tree_of laws b side) (rank (b.heap a).price) ≡ some l)
        → side ≢ no_side
        → ((after laws b v id a size evt exch entry side on l at found).evt_time ≡ some evt)
          × (limit_at laws
                (tree_of laws (after laws b v id a size evt exch entry side on l at found) side)
                (rank (b.heap a).price)
              ≡ some (
                  grown laws b.heap
                    (tree_of laws b side)
                    (b.heap a).price
                    l
                    id
                    a
                    size
                    b.evt_time
                    at
                    found))
    stamped_at bid on at real = (
      refl,
      limit_at-grown laws b.heap b.bid_tree (b.heap a).price l id a size b.evt_time at found
            (rank (b.heap a).price)
          ∙ ground arith,
    )
    stamped_at ask on at real = (
      refl,
      limit_at-grown laws b.heap b.ask_tree (b.heap a).price l id a size b.evt_time at found
            (rank (b.heap a).price)
          ∙ ground arith,
    )
    stamped_at no_side on at real = absurd (real refl)

  Stamped-entry :
      (id a : ℕ) (size : F) (evt exch : Timespec)
      → IsValid laws b
      → b.order_map id ≡ some a
      → d.in_range size ≡ true
      → Stamped id (b.heap a) size evt exch
  unfolding Stamped
  Stamped-entry id a size evt exch v entry in_range =
      let listed = v.lists id a entry in
      let (l, at, found) = limit_of_found b.heap _ id a listed.found in
      let side = (b.heap a).buy_sell in
      let (now, limit) =
        stamped_at v id a size evt exch entry l found side refl at (has_side laws b id a listed) in
      (
        after laws b v id a size evt exch entry side refl l at found,
        grown laws b.heap (tree_of laws b side) (b.heap a).price l id a size b.evt_time at found,
        modify-modified laws b v id a size evt exch entry side refl l at found in_range,
        now,
        limit,
        refl,
      )

  -- Modifying a listed order of a valid book, to a size that can be converted, stamps the book with the event time of the call, and
  -- the order's limit with the book's event time from before the call.
  pub modify_stamps :
      (id : ℕ) (o : KOrder F) (size : F) (evt exch : Timespec)
      → IsValid laws b
      → get_order b id ≡ some o
      → d.in_range size ≡ true
      → (b' : KBook F) × (m : KLimit F) × (modify d b id size evt exch ≡ some (1, b'))
        × (b'.evt_time ≡ some evt)
        × (limit_at laws (tree_of laws b' o.buy_sell) (rank o.price) ≡ some m)
        × (m.time_updated ≡ b.evt_time)
  unfolding Stamped
  modify_stamps id o size evt exch v e in_range =
      let (a, entry, here) = entry_of b id o e in
      subst (λ (x : KOrder F). Stamped id x size evt exch) here
        (Stamped-entry id a size evt exch v entry in_range)
