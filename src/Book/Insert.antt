-- ===== src/Book/Insert.antt =====
-- The trees, the heap and the order map once an order with a new id is in the book.
use mathlib.Core.Option.{some-injective}
use system_k_dev.Base.{
  ℕ, suc, ◌≡◌, ◌≢◌, refl, ap, ◌∙◌, sym, Bool, true, false, ◌&&◌, Option, none, some, List, [], ◌∷◌,
  ◌++◌, ◌==◌, if◌then◌else◌, arith, subst,
}
use system_k_dev.Double.{DoubleOps, DoubleLaws}
use system_k_dev.Book.Limit.{
  Side, bid, ask, no_side, KOrder, KLimit, Heap, Timespec, find_order, update,
}
use system_k_dev.Book.{KBook}
use system_k_dev.Book.Orders.{All-map, find_order_absent, find_order-append}
use system_k_dev.Book.Volume.{Agree, find_order-Agree}
use system_k_dev.Book.Valid.{
  OrderOk, LimitOk, TreeOk, IsValid, orders_at, tree_of, All-orders_at, TreeOk-frame, TreeOk-change,
  TreeOk-nil,
}
use system_k_dev.Book.Join.{
  joined, joined_tree, limit_at-joined_tree, joined_tree-Ascending, orders_at-joined_tree,
  joined-LimitOk,
}

pub update_self {ℓ} : {A : Type ℓ} (f : ℕ → A) (i : ℕ) (x : A) → update f i x i ≡ x
update_self f i x = ground arith

pub update_other {ℓ} : {A : Type ℓ} (f : ℕ → A) (i j : ℕ) (x : A) → i ≢ j → update f i x j ≡ f j
update_other f i j x h = ground arith

abbrev pub same_side : Side → Side → Bool
same_side bid bid = true
same_side ask ask = true
same_side _ _ = false

module _ {F : Type 0} {d : DoubleOps F} (laws : DoubleLaws d) (b : KBook F) (o : KOrder F)
    (evt : Timespec) (v : IsValid laws b) (new : b.order_map o.order_id ≡ none)
    (in_range : d.in_range o.size ≡ true) where
  open laws use {rank}

  abbrev pub heap : Heap F
  heap = update b.heap b.fresh o

  abbrev pub listed : ℕ → Option ℕ
  listed = update b.order_map o.order_id (some b.fresh)

  pub heap_new : heap b.fresh ≡ o
  heap_new = update_self b.heap b.fresh o

  pub kept :
      (side : Side) (j a : ℕ)
      → OrderOk laws b.heap b.order_map side j a
      → (heap a ≡ b.heap a)
        × (listed (b.heap a).order_id ≡ some a)
        × ((heap a).order_id ≢ o.order_id)
  kept side j a k =
      let l = v.lists (b.heap a).order_id a k.in_map in
      let other : (b.heap a).order_id ≡ o.order_id → ⊥ =
        λ e. ground (arith, k.in_map, ap b.order_map e) in
      let same = update_other b.heap b.fresh a o (ground (arith, l.old)) in
      (
        same,
        update_other b.order_map o.order_id (b.heap a).order_id (some b.fresh) (λ e. other (sym e))
            ∙ k.in_map,
        λ e. other (ap (λ (x : KOrder F). x.order_id) (sym same) ∙ e),
      )

  module _ (side : Side) (t : List (KLimit F)) (w : TreeOk laws b.heap b.order_map side t) where
    -- The tree on the other side.
    pub untouched : TreeOk laws heap listed side t
    untouched =
        TreeOk-frame laws heap b.heap listed b.order_map side t w
          λ j a k. let (e, m, _) = kept side j a k in (e, m)

    agree : (k : ℕ) → Agree heap b.heap (orders_at laws t k)
    agree k =
        All-map (orders_at laws t k) (λ a q. (kept side k a q).0)
          (All-orders_at laws b.heap b.order_map side t k w).0

    absent : (k : ℕ) → find_order heap (orders_at laws t k) o.order_id ≡ none
    absent k = find_order_absent heap (orders_at laws t k) o.order_id (
        All-map (orders_at laws t k) (λ a q. (kept side k a q).2)
          (All-orders_at laws b.heap b.order_map side t k w).0)

    abbrev grown : List (KLimit F)
    grown = joined_tree laws heap t b.fresh evt

    absent_new :
        find_order heap (orders_at laws t (rank (heap b.fresh).price)) (heap b.fresh).order_id
        ≡ none
    absent_new =
        subst
          (λ (x : KOrder F). find_order heap (orders_at laws t (rank x.price)) x.order_id ≡ none)
          (sym heap_new) (absent (rank o.price))

    orders_grown :
        (j : ℕ)
        → orders_at laws grown j
          ≡ (if rank o.price == j then orders_at laws t j ++ (b.fresh ∷ []) else orders_at laws t j)
    orders_grown j =
        orders_at-joined_tree laws heap t b.fresh evt absent_new j
        ∙ ap
            (λ (x : KOrder F).
              if rank x.price == j
              then orders_at laws t j ++ (b.fresh ∷ [])
              else orders_at laws t j)
            heap_new

    new-OrderOk :
        o.buy_sell ≡ side → OrderOk laws heap listed side (rank (heap b.fresh).price) b.fresh
    new-OrderOk on = record {
      in_map =
          ap (λ (x : KOrder F). listed x.order_id) heap_new ∙ update_self b.order_map o.order_id _;
      on_side = ap (λ (x : KOrder F). x.buy_sell) heap_new ∙ on;
      at_price = refl;
      in_range = ap (λ (x : KOrder F). d.in_range x.size) heap_new ∙ in_range;
    }

    pub grown-TreeOk : o.buy_sell ≡ side → TreeOk laws heap listed side grown
    grown-TreeOk on =
        let k = rank (heap b.fresh).price in
        let fine =
          joined-LimitOk laws heap t b.fresh evt absent_new listed side (new-OrderOk on)
            (untouched.limits k) in
        TreeOk-change laws heap b.heap listed b.order_map side t grown k
          (some (joined laws heap t b.fresh evt)) w
          (joined_tree-Ascending laws heap t b.fresh evt w.sorted)
          (limit_at-joined_tree laws heap t b.fresh evt)
          (λ l e. subst (LimitOk laws heap listed side) (some-injective _ _ e) fine)
          (λ j a _ q. let (e, m, _) = kept side j a q in (e, m))

  module _ (exch : Timespec) where
    abbrev base : KBook F
    base = record b {
      heap = heap;
      fresh = suc b.fresh;
      exch_snd_time = some exch;
      evt_time = some evt;
      order_map = listed;
    }

    -- The book after the call.
    abbrev pub added : Side → KBook F
    added bid = record base { bid_tree = joined_tree laws heap b.bid_tree b.fresh evt }
    added ask = record base { ask_tree = joined_tree laws heap b.ask_tree b.fresh evt }
    added no_side = b

    pub orders_added :
        (side s : Side) (k : ℕ)
        → side ≢ no_side
        → orders_at laws (tree_of laws (added side) s) k ≡ (
            if same_side side s && (rank o.price == k)
            then orders_at laws (tree_of laws b s) k ++ (b.fresh ∷ [])
            else orders_at laws (tree_of laws b s) k)
    orders_added bid bid k h = orders_grown bid b.bid_tree v.bids k
    orders_added bid ask k h = refl
    orders_added bid no_side k h = refl
    orders_added ask bid k h = refl
    orders_added ask ask k h = orders_grown ask b.ask_tree v.asks k
    orders_added ask no_side k h = refl
    orders_added no_side s k h = absurd (h refl)

    pub Agree-orders_at :
        (s : Side) (k : ℕ) → Agree heap b.heap (orders_at laws (tree_of laws b s) k)
    Agree-orders_at bid k = agree bid b.bid_tree v.bids k
    Agree-orders_at ask k = agree ask b.ask_tree v.asks k
    Agree-orders_at no_side k = agree no_side [] (TreeOk-nil laws b.heap b.order_map no_side) k

    pub absent_at :
        (s : Side) (k : ℕ) → find_order heap (orders_at laws (tree_of laws b s) k) o.order_id ≡ none
    absent_at bid k = absent bid b.bid_tree v.bids k
    absent_at ask k = absent ask b.ask_tree v.asks k
    absent_at no_side k = absent no_side [] (TreeOk-nil laws b.heap b.order_map no_side) k

    -- An id that a level of the old book finds is found in the new one.
    pub found_added :
        (side s : Side) (k j : ℕ)
        → side ≢ no_side
        → find_order heap (orders_at laws (tree_of laws (added side) s) k) j
          ≡ elim (find_order b.heap (orders_at laws (tree_of laws b s) k) j) [
            | some a ↦ some a
            | none ↦
                if same_side side s && (rank o.price == k)
                then (if o.order_id == j then some b.fresh else none)
                else none
          ]
    found_added side s k j h = rw (orders_added side s k h) (
        ground (
          arith,
          find_order-append heap (orders_at laws (tree_of laws b s) k) b.fresh j,
          find_order-Agree heap b.heap (orders_at laws (tree_of laws b s) k) j
              (Agree-orders_at s k),
          ap (λ (x : KOrder F). x.order_id) heap_new,
        ))
