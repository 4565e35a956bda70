-- ===== src/Book/Add.antt =====
-- `KBook::add` of an order with a new id.
use system_k_dev.Base.{
  ℕ, suc, List, ◌>>=◌, ◌<◌, ◌≡◌, ◌≢◌, refl, ap, ◌∙◌, sym, true, ◌&&◌, Option, none, some, [], ◌∷◌,
  ◌++◌, ◌==◌, if◌then◌else◌, arith, subst, Bool-cases, inl, inr,
}
use system_k_dev.Double.{DoubleOps, DoubleLaws}
use system_k_dev.Book.Limit.{
  Side, bid, ask, no_side, KOrder, KLimit, Heap, Timespec, find_order, update,
}
use system_k_dev.Book.{KBook, add, add_bid, add_ask, add_to_tree, allocate, get_order}
use system_k_dev.Book.Orders.{values, values-append, find_order-append}
use system_k_dev.Book.Volume.{values-Agree}
use system_k_dev.Book.Valid.{Listed, IsValid, orders_at, tree_of, level}
use system_k_dev.Book.Join.{joined_tree, add_to_tree-joined_tree}
use system_k_dev.Book.Insert.{
  update_self, heap, listed, heap_new, untouched, grown-TreeOk, added, same_side, orders_added,
  Agree-orders_at, absent_at, found_added, update_other,
}

module _ {F : Type 0} {d : DoubleOps F} (laws : DoubleLaws d) (b : KBook F) (o : KOrder F)
    (evt exch : Timespec) (v : IsValid laws b) (new : b.order_map o.order_id ≡ none)
    (in_range : d.in_range o.size ≡ true) where
  open laws use {rank}

  abbrev h : Heap F
  h = heap laws b o evt v new in_range

  abbrev m : ℕ → Option ℕ
  m = listed laws b o evt v new in_range

  abbrev after : Side → KBook F
  after = added laws b o evt v new in_range exch

  self : h b.fresh ≡ o
  self = heap_new laws b o evt v new in_range

  same_side_self : (side : Side) → side ≢ no_side → same_side side side ≡ true
  same_side_self bid s = refl
  same_side_self ask s = refl
  same_side_self no_side s = absurd (s refl)

  abbrev Found : Side → KOrder F → ℕ → ℕ → Type 0
  Found side x j a =
      find_order h (orders_at laws (tree_of laws (after side) x.buy_sell) (rank x.price)) j ≡ some a

  found_new :
      (side : Side)
      → side ≢ no_side
      → find_order h (orders_at laws (tree_of laws (after side) side) (rank o.price)) o.order_id
        ≡ some b.fresh
  found_new side s =
      let xs = orders_at laws (tree_of laws b side) (rank o.price) in
      rw (orders_added laws b o evt v new in_range exch side side (rank o.price) s) (
        ground (
          arith,
          same_side_self side s,
          find_order-append h xs b.fresh o.order_id,
          absent_at laws b o evt v new in_range exch side (rank o.price),
          ap (λ (x : KOrder F). x.order_id) self,
        ))

  Found-old :
      (side : Side) (j a : ℕ) → side ≢ no_side → Listed laws b j a → Found side (b.heap a) j a
  Found-old side j a s l =
      found_added laws b o evt v new in_range exch side (b.heap a).buy_sell (rank (b.heap a).price)
        j s
      ∙ rw l.found

  -- What the new order map says of an id.
  lists_added :
      (side : Side) (j a : ℕ)
      → side ≢ no_side
      → o.buy_sell ≡ side
      → m j ≡ some a
      → (a < suc b.fresh) × ((h a).order_id ≡ j) × Found side (h a) j a
  lists_added side j a s on e = elim (Bool-cases (o.order_id == j)) [
    | inl hit ↦
        let same : b.fresh ≡ a = ground arith in
        let here : h a ≡ o = ap h (sym same) ∙ self in
        (
          omega arith,
          ap (λ (x : KOrder F). x.order_id) here ∙ ground arith,
          subst (λ (x : KOrder F). Found side x j a) (sym here)
              (subst
                (λ t.
                  find_order h (orders_at laws (tree_of laws (after side) t) (rank o.price)) j
                  ≡ some a)
                (sym on) (ground (arith, found_new side s))),
        )
    | inr miss ↦
        let l = v.lists j a (ground arith) in
        let here : h a ≡ b.heap a = update_other b.heap b.fresh a o (ground (arith, l.old)) in
        (
          omega (arith, l.old),
          ap (λ (x : KOrder F). x.order_id) here ∙ l.has_id,
          subst (λ (x : KOrder F). Found side x j a) (sym here) (Found-old side j a s l),
        )
  ]

  pub added-IsValid : (side : Side) → side ≢ no_side → o.buy_sell ≡ side → IsValid laws (after side)
  added-IsValid bid s on = record {
    bids = grown-TreeOk laws b o evt v new in_range bid b.bid_tree v.bids on;
    asks = untouched laws b o evt v new in_range ask b.ask_tree v.asks;
    lists = λ j a e.
        let (old, has_id, found) = lists_added bid j a s on e in
        record { old = old; has_id = has_id; found = found };
  }
  added-IsValid ask s on = record {
    bids = untouched laws b o evt v new in_range bid b.bid_tree v.bids;
    asks = grown-TreeOk laws b o evt v new in_range ask b.ask_tree v.asks on;
    lists = λ j a e.
        let (old, has_id, found) = lists_added ask j a s on e in
        record { old = old; has_id = has_id; found = found };
  }
  added-IsValid no_side s on = absurd (s refl)

  heap_after : (side : Side) → side ≢ no_side → (after side).heap ≡ h
  heap_after bid s = refl
  heap_after ask s = refl
  heap_after no_side s = absurd (s refl)

  level-added :
      (side s : Side) (k : ℕ)
      → side ≢ no_side
      → level laws (after side) s k ≡ (
          if same_side side s && (rank o.price == k)
          then level laws b s k ++ (o ∷ [])
          else level laws b s k)
  level-added side s k ne =
      let xs = orders_at laws (tree_of laws b s) k in
      ap (λ (g : Heap F). values g (orders_at laws (tree_of laws (after side) s) k))
        (heap_after side ne)
      ∙ rw (orders_added laws b o evt v new in_range exch side s k ne) (
          ground (
            arith,
            values-append h xs b.fresh,
            values-Agree h b.heap xs (Agree-orders_at laws b o evt v new in_range exch s k),
            self,
          ))

  found_object :
      (j : ℕ) (p : Option ℕ)
      → b.order_map j ≡ p
      → elim (if o.order_id == j then some b.fresh else p) as (λ x. Option (KOrder F)) [
        | none ↦ none
        | some a ↦ some (h a)
      ]
        ≡ (if o.order_id == j
            then some o
            else elim p as (λ x. Option (KOrder F)) [ none ↦ none | some a ↦ some (b.heap a) ])
  found_object j none e = ground (arith, self)
  found_object j (some a) e =
      ground (arith, self, update_other b.heap b.fresh a o, (v.lists j a e).old)

  get_order-added :
      (side : Side) (j : ℕ)
      → side ≢ no_side
      → get_order (after side) j ≡ (if o.order_id == j then some o else get_order b j)
  unfolding get_order
  get_order-added bid j ne = found_object j (b.order_map j) refl
  get_order-added ask j ne = found_object j (b.order_map j) refl
  get_order-added no_side j ne = absurd (ne refl)

abbrev pub order : {F : Type 0} → ℕ → Side → F → F → KOrder F
order id side size price = record { order_id = id; buy_sell = side; size = size; price = price }

module _ {F : Type 0} {d : DoubleOps F} (laws : DoubleLaws d) (b : KBook F) (id : ℕ) (side : Side)
    (size price : F) (evt exch : Timespec) (v : IsValid laws b) (new : b.order_map id ≡ none)
    (real : side ≢ no_side) (in_range : d.in_range size ≡ true) where
  open laws use {rank}

  -- The conversion of the size of the order that is put on the heap.
  joins :
      (s : Side) (t : List (KLimit F))
      → let h' = update b.heap b.fresh (order id s size price) in
        add_to_tree d h' t b.fresh evt ≡ some (joined_tree laws h' t b.fresh evt)
  joins s t =
      let o = order id s size price in
      add_to_tree-joined_tree laws (update b.heap b.fresh o) t b.fresh evt
        (ap (λ (x : KOrder F). d.in_range x.size) (update_self b.heap b.fresh o) ∙ in_range)

  add-added :
      (s : Side)
      → s ≢ no_side
      → add d b id s size price evt exch
        ≡ some (1, added laws b (order id s size price) evt v new in_range exch s)
  unfolding add add_bid add_ask
  add-added bid ne =
      let o = order id bid size price in
      let b' = allocate d b o exch in
      let with : KOrder F → List (KLimit F) → ℕ × KBook F = λ x t. (
        1,
        record b' {
          bid_tree = t;
          evt_time = some evt;
          order_map = update b.order_map x.order_id (some b.fresh);
        },
      ) in
      ap (λ r. r >>= λ t. some (with (b'.heap b.fresh) t)) (joins bid b.bid_tree)
      ∙ ap (λ x. some (with x (joined_tree laws b'.heap b.bid_tree b.fresh evt)))
          (update_self b.heap b.fresh o)
  add-added ask ne =
      let o = order id ask size price in
      let b' = allocate d b o exch in
      let with : KOrder F → List (KLimit F) → ℕ × KBook F = λ x t. (
        1,
        record b' {
          ask_tree = t;
          evt_time = some evt;
          order_map = update b.order_map x.order_id (some b.fresh);
        },
      ) in
      ap (λ r. r >>= λ t. some (with (b'.heap b.fresh) t)) (joins ask b.ask_tree)
      ∙ ap (λ x. some (with x (joined_tree laws b'.heap b.ask_tree b.fresh evt)))
          (update_self b.heap b.fresh o)
  add-added no_side ne = absurd (ne refl)

  -- What `add` leaves behind.
  pub record Added (b' : KBook F) : Type 0 where
    pub valid : IsValid laws b'
    pub levels :
        (s : Side) (k : ℕ)
        → level laws b' s k ≡ (
            if same_side side s && (rank price == k)
            then level laws b s k ++ (order id side size price ∷ [])
            else level laws b s k)
    pub orders :
        (j : ℕ)
        → get_order b' j ≡ (if id == j then some (order id side size price) else get_order b j)

  pub add-Added : (b' : KBook F) × (add d b id side size price evt exch ≡ some (1, b')) × Added b'
  add-Added =
      let o = order id side size price in
      (
        added laws b o evt v new in_range exch side,
        add-added side real,
        record {
          valid = added-IsValid laws b o evt exch v new in_range side real refl;
          levels = λ s k. level-added laws b o evt exch v new in_range side s k real;
          orders = λ j. get_order-added laws b o evt exch v new in_range side j real;
        },
      )

  -- Adding to a valid book an order with a side, an id that the order map does not have and a size
  -- that can be converted meets no undefined behaviour, returns 1 and keeps the book valid.
  pub add-IsValid :
      (b' : KBook F) × (add d b id side size price evt exch ≡ some (1, b')) × IsValid laws b'
  add-IsValid = let (b', e, after) = add-Added in (b', e, after.valid)

  -- Adding to a valid book an order with a side, an id that the order map does not have and a size
  -- that can be converted puts it last in its level, leaves every other level alone, and makes the
  -- order the one that the id stands for, with every other id as it was.
  pub add-level :
      let o = order id side size price in
      (b' : KBook F) × (add d b id side size price evt exch ≡ some (1, b'))
      × ((s : Side) (k : ℕ)
          → level laws b' s k ≡ (
              if same_side side s && (rank price == k)
              then level laws b s k ++ (o ∷ [])
              else level laws b s k))
      × ((j : ℕ) → get_order b' j ≡ (if id == j then some o else get_order b j))
  add-level = let (b', e, after) = add-Added in (b', e, after.levels, after.orders)
