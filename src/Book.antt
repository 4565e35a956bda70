-- ===== src/Book.antt =====
-- order_book/order_book.v2/order_book.{h,cpp}: KBook. Orders are objects on a heap, because a limit
-- and the order map share them; a limit belongs to one tree only and is a value there. A std::set
-- of limits is the list of its elements in ascending order.
pub mod Limit
pub mod Tree
pub mod Withdraw
pub mod Remove
pub mod Resize
pub mod Modify
pub mod Query
pub mod Best
pub mod Run
pub mod Stamp
pub mod Calls
pub mod Spec
pub mod Amend
pub mod Levels
pub mod Leave
pub mod Insert
pub mod Add
pub mod Join
pub mod Valid
pub mod Volume
pub mod Orders
mod Tests
use system_k_dev.Base.{
  ℕ, suc, ◌+◌, Bool, true, false, ◌&&◌, not, Option, none, some, List, [], ◌∷◌, ◌++◌, length, take,
  ◌==◌, ◌%◌, ◌^◌, ◌>>=◌, if◌then◌else◌,
}
use system_k_dev.Base.Int.{ℤ, pos, negsuc}
use system_k_dev.Double.{DoubleOps}
use Limit.{
  Side, bid, ask, no_side, Timespec, KOrder, KLimit, Heap, update, new_limit, add_order,
  modify_order, remove_order, set_update_time, get_order_count,
}

pub record KBook (F : Type 0) : Type 0 where
  pub heap : Heap F
  pub fresh : ℕ
  pub order_map : ℕ → Option ℕ
  pub bid_tree : List (KLimit F)
  pub ask_tree : List (KLimit F)
  pub name : List ℕ
  pub evt_time : Option Timespec
  pub exch_snd_time : Option Timespec
  pub depth : ℕ

abbrev pub ob_name_len : ℕ
ob_name_len = 128

-- constants.h: INT_MIN and INT_MAX.
abbrev pub no_bid : ℤ
no_bid = negsuc 2147483647

abbrev pub no_ask : ℤ
no_ask = pos 2147483647

module _ {F : Type 0} where
  -- The heap with no objects on it is a parameter.
  pub new_book : Heap F → Option (List ℕ) → ℕ → KBook F
  new_book h name depth = record {
    heap = h;
    fresh = 0;
    order_map = λ _. none;
    bid_tree = [];
    ask_tree = [];
    name = elim name [ none ↦ [] | some s ↦ take 127 s ];
    evt_time = none;
    exch_snd_time = none;
    depth = depth % 2 ^ 32;
  }

  pub get_order : KBook F → ℕ → Option (KOrder F)
  get_order b id = elim (b.order_map id) [ none ↦ none | some a ↦ some (b.heap a) ]

  pub clear : KBook F → KBook F
  clear b = record b { order_map = λ _. none; bid_tree = []; ask_tree = [] }

  -- The last element of a tree, which its reverse iterator begins at.
  abbrev pub last_limit : List (KLimit F) → Option (KLimit F)
  last_limit [] = none
  last_limit (l ∷ t) = elim (last_limit t) [ none ↦ some l | some m ↦ some m ]

module _ {F : Type 0} (d : DoubleOps F) where
  -- Neither of the prices comes before the other: KLimitComp on the limits.
  abbrev pub equiv : F → F → Bool
  equiv x y = not (d.lt x y) && not (d.lt y x)

  -- `_findLimit`: std::set::find.
  pub find_limit : List (KLimit F) → F → Option (KLimit F)
  find_limit [] price = none
  find_limit (l ∷ t) price = if equiv l.price price then some l else find_limit t price

  -- A change of the limit that an iterator points to, at the price where it was found.
  pub put_limit : List (KLimit F) → F → KLimit F → List (KLimit F)
  put_limit [] price m = []
  put_limit (l ∷ t) price m = if equiv l.price price then m ∷ t else l ∷ put_limit t price m

  -- std::set::insert, which keeps an equivalent element that is there.
  pub insert_limit : List (KLimit F) → KLimit F → List (KLimit F)
  insert_limit [] m = m ∷ []
  insert_limit (l ∷ t) m =
      if d.lt m.price l.price
      then m ∷ l ∷ t
      else if d.lt l.price m.price
      then l ∷ insert_limit t m
      else l ∷ t

  -- std::set::erase of the element found at the price.
  pub erase_limit : List (KLimit F) → F → List (KLimit F)
  erase_limit [] price = []
  erase_limit (l ∷ t) price = if equiv l.price price then t else l ∷ erase_limit t price

  -- What `addBid` and `addAsk` do to their tree with the order at address `a`. Here and below `none`
  -- is undefined behaviour or a failed assertion.
  pub add_to_tree : Heap F → List (KLimit F) → ℕ → Timespec → Option (List (KLimit F))
  add_to_tree h tree a evt =
      let price = (h a).price in
      elim (find_limit tree price) [
        | some l ↦ do
          (_, m) ← add_order d h l a
          some (put_limit tree price (set_update_time m (some evt)))
        | none ↦ do
          (_, m) ← add_order d h (set_update_time (new_limit price 0) (some evt)) a
          some (insert_limit tree m)
      ]

  pub add_bid : KBook F → ℕ → Timespec → Option (ℕ × KBook F)
  add_bid b a evt = do
    t ← add_to_tree b.heap b.bid_tree a evt
    some (
      1,
      record b {
        bid_tree = t;
        evt_time = some evt;
        order_map = update b.order_map (b.heap a).order_id (some a);
      },
    )

  pub add_ask : KBook F → ℕ → Timespec → Option (ℕ × KBook F)
  add_ask b a evt = do
    t ← add_to_tree b.heap b.ask_tree a evt
    some (
      1,
      record b {
        ask_tree = t;
        evt_time = some evt;
        order_map = update b.order_map (b.heap a).order_id (some a);
      },
    )

  -- `new KOrder`, with the send time that `add` records first.
  abbrev pub allocate : KBook F → KOrder F → Timespec → KBook F
  allocate b o exch = record b {
    heap = update b.heap b.fresh o;
    fresh = suc b.fresh;
    exch_snd_time = some exch;
  }

  pub add :
      KBook F → (id : ℕ) → Side → (size price : F) → (evt exch : Timespec) → Option (ℕ × KBook F)
  add b id side size price evt exch =
      let o : KOrder F = record { order_id = id; buy_sell = side; size = size; price = price } in
      let b' = allocate b o exch in
      elim side [
        | bid ↦ add_bid b' b.fresh evt
        | ask ↦ add_ask b' b.fresh evt
        | no_side ↦ some (0, b')
      ]

  -- What `remove` does to the limit found in a tree.
  pub remove_from_tree :
      Heap F → List (KLimit F) → F → KLimit F → ℕ → Timespec → Option (List (KLimit F))
  remove_from_tree h tree price l id evt = do
    (removed, m) ← remove_order d h l id
    let m' = set_update_time m (some evt)
    if removed == 1
        then some
            (if get_order_count m' == 0 then erase_limit tree price else put_limit tree price m')
        else none

  -- A missing ask limit is dereferenced, because the iterator is compared with the end of the bid tree.
  pub remove : KBook F → (id : ℕ) → (evt exch : Timespec) → Option (ℕ × KBook F)
  remove b id evt exch =
      let b' = record b { exch_snd_time = some exch } in
      let done = record b' { order_map = update b.order_map id none; evt_time = some evt } in
      elim (b.order_map id) [
        | none ↦ some (0, b')
        | some a ↦
            let price = (b.heap a).price in
            elim (b.heap a).buy_sell [
              | bid ↦ elim (find_limit b.bid_tree price) [
                | none ↦ some (0, b')
                | some l ↦ elim (remove_from_tree b.heap b.bid_tree price l id evt) [
                  | none ↦ none
                  | some t ↦ some (1, record done { bid_tree = t })
                ]
              ]
              | ask ↦ elim (find_limit b.ask_tree price) [
                | none ↦ none
                | some l ↦ elim (remove_from_tree b.heap b.ask_tree price l id evt) [
                  | none ↦ none
                  | some t ↦ some (1, record done { ask_tree = t })
                ]
              ]
              | no_side ↦ some (0, b')
            ]
      ]

  -- What `modify` does to the limit found: it gets the event time from before the call.
  pub modify_limit : KBook F → KLimit F → ℕ → F → Option (KLimit F × Heap F)
  modify_limit b l id size = do
    (_, m, h) ← modify_order d b.heap l id size
    some (set_update_time m b.evt_time, h)

  -- On neither side an iterator is used that was never set.
  pub modify : KBook F → (id : ℕ) → (size : F) → (evt exch : Timespec) → Option (ℕ × KBook F)
  modify b id size evt exch =
      let b' = record b { exch_snd_time = some exch } in
      elim (b.order_map id) [
        | none ↦ some (0, b')
        | some a ↦
            let price = (b.heap a).price in
            elim (b.heap a).buy_sell [
              | bid ↦ elim (find_limit b.bid_tree price) [
                | none ↦ some (0, b')
                | some l ↦ modify_limit b l id size >>= λ (m, h). some (
                  1,
                  record b' {
                    heap = h;
                    bid_tree = put_limit b.bid_tree price m;
                    evt_time = some evt;
                  },
                )
              ]
              | ask ↦ elim (find_limit b.ask_tree price) [
                | none ↦ some (0, b')
                | some l ↦ modify_limit b l id size >>= λ (m, h). some (
                  1,
                  record b' {
                    heap = h;
                    ask_tree = put_limit b.ask_tree price m;
                    evt_time = some evt;
                  },
                )
              ]
              | no_side ↦ none
            ]
      ]

  pub get_total_volume_at_limit : KBook F → Side → F → ℕ
  get_total_volume_at_limit b side price = elim side [
    | bid ↦ elim (find_limit b.bid_tree price) [ some l ↦ l.total_volume | none ↦ 0 ]
    | ask ↦ elim (find_limit b.ask_tree price) [ some l ↦ l.total_volume | none ↦ 0 ]
    | no_side ↦ 0
  ]

  pub get_order_count_at_limit : KBook F → Side → F → ℕ
  get_order_count_at_limit b side price = elim side [
    | bid ↦ elim (find_limit b.bid_tree price) [ some l ↦ get_order_count l | none ↦ 0 ]
    | ask ↦ elim (find_limit b.ask_tree price) [ some l ↦ get_order_count l | none ↦ 0 ]
    | no_side ↦ 0
  ]

  pub best_price : KBook F → Side → F
  best_price b side = elim side [
    | bid ↦ elim (last_limit b.bid_tree) [ some l ↦ l.price | none ↦ d.of_int no_bid ]
    | ask ↦ elim b.ask_tree [ [] ↦ d.of_int no_ask | l ∷ _ ↦ l.price ]
    | no_side ↦ d.of_int (negsuc 999999998)
  ]

  pub best_price_volume : KBook F → Side → F
  best_price_volume b side = d.of_u32 (get_total_volume_at_limit b side (best_price b side))
