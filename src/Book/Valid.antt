-- ===== src/Book/Valid.antt =====
-- What holds of a book between calls: trees sorted by price, limits that count their orders'
-- volume, and an order map that lists exactly the orders at rest in the trees.
use system_k_dev.Base.{
  ℕ, ◌%◌, ◌^◌, ◌<◌, ◌≡◌, ◌≢◌, refl, ◌∙◌, sym, true, Option, none, some, List, [], ◌==◌,
  if◌then◌else◌, arith, length, subst, Bool-cases, inl, inr,
}
use system_k_dev.Double.{DoubleOps, DoubleLaws}
use system_k_dev.Book.Limit.{Side, bid, ask, no_side, KOrder, KLimit, Heap, find_order}
use system_k_dev.Book.{KBook, new_book, clear}
use system_k_dev.Book.Tree.{limit_at, Ascending, rank_of_limit_at}
use system_k_dev.Book.Orders.{All, All-map, All-found, Distinct, values}
use system_k_dev.Book.Volume.{sum_sizes, Agree, values-Agree, Distinct-Agree}

-- The orders of a limit that may be there.
abbrev pub orders_of : {F : Type 0} → Option (KLimit F) → List ℕ
orders_of none = []
orders_of (some l) = l.orders

module _ {F : Type 0} {d : DoubleOps F} (laws : DoubleLaws d) where
  open laws use {rank}

  -- An order at rest on a side, at a price rank: the order map lists it, and its size has a
  -- conversion to uint32_t.
  pub record OrderOk (h : Heap F) (listed : ℕ → Option ℕ) (side : Side) (k a : ℕ) : Type 0 where
    pub in_map : listed (h a).order_id ≡ some a
    pub on_side : (h a).buy_sell ≡ side
    pub at_price : rank (h a).price ≡ k
    pub in_range : d.in_range (h a).size ≡ true

  pub record LimitOk (h : Heap F) (listed : ℕ → Option ℕ) (side : Side) (l : KLimit F)
      : Type 0 where
    pub some_orders : 0 < length l.orders
    pub volume : l.total_volume ≡ sum_sizes d (values h l.orders) % 2 ^ 32
    pub at_rest : All (OrderOk h listed side (rank l.price)) l.orders
    pub distinct : Distinct h l.orders

  -- The size of an order that a limit finds.
  pub found-in_range :
      (h : Heap F) (listed : ℕ → Option ℕ) (side : Side) (l : KLimit F) (id a : ℕ)
      → LimitOk h listed side l
      → find_order h l.orders id ≡ some a
      → d.in_range (h a).size ≡ true
  found-in_range h listed side l id a v found =
      (All-found (OrderOk h listed side (rank l.price)) h l.orders id a found v.at_rest).in_range

  pub record TreeOk (h : Heap F) (listed : ℕ → Option ℕ) (side : Side) (t : List (KLimit F))
      : Type 0 where
    pub sorted : Ascending laws 0 t
    pub limits : (k : ℕ) (l : KLimit F) → limit_at laws t k ≡ some l → LimitOk h listed side l

  abbrev pub tree_of : KBook F → Side → List (KLimit F)
  tree_of b bid = b.bid_tree
  tree_of b ask = b.ask_tree
  tree_of b no_side = []

  abbrev pub orders_at : List (KLimit F) → ℕ → List ℕ
  orders_at t k = orders_of (limit_at laws t k)

  -- What the order map says of an id.
  pub record Listed (b : KBook F) (id a : ℕ) : Type 0 where
    pub old : a < b.fresh
    pub has_id : (b.heap a).order_id ≡ id
    pub found :
        find_order b.heap (orders_at (tree_of b (b.heap a).buy_sell) (rank (b.heap a).price)) id
        ≡ some a

  pub record IsValid (b : KBook F) : Type 0 where
    pub bids : TreeOk b.heap b.order_map bid b.bid_tree
    pub asks : TreeOk b.heap b.order_map ask b.ask_tree
    pub lists : (id a : ℕ) → b.order_map id ≡ some a → Listed b id a

  -- The orders at rest on a side at a price rank, first come first.
  abbrev pub level : KBook F → Side → ℕ → List (KOrder F)
  level b side k = values b.heap (orders_at (tree_of b side) k)

  -- A limit stays as it should where its orders stay as they are and listed.
  pub LimitOk-frame :
      (g h : Heap F) (m n : ℕ → Option ℕ) (side : Side) (l : KLimit F)
      → ((a : ℕ) → OrderOk h n side (rank l.price) a → (g a ≡ h a) × (m (h a).order_id ≡ some a))
      → LimitOk h n side l
      → LimitOk g m side l
  LimitOk-frame g h m n side l keep v =
      let agree : Agree g h l.orders = All-map l.orders (λ a o. (keep a o).0) v.at_rest in
      record {
        some_orders = v.some_orders;
        volume = rw (values-Agree g h l.orders agree) v.volume;
        at_rest = All-map l.orders (λ a o. moved a o) v.at_rest;
        distinct = Distinct-Agree g h l.orders agree v.distinct;
      }
    where
      moved : (a : ℕ) → OrderOk h n side (rank l.price) a → OrderOk g m side (rank l.price) a
      moved a o =
          let (e, k) = keep a o in
          record {
            in_map = rw e k;
            on_side = rw e o.on_side;
            at_price = rw e o.at_price;
            in_range = rw e o.in_range;
          }

  -- A tree in which at most one limit has changed.
  pub TreeOk-change :
      (g h : Heap F) (m n : ℕ → Option ℕ) (side : Side) (t u : List (KLimit F)) (k : ℕ)
      (new : Option (KLimit F))
      → TreeOk h n side t
      → Ascending laws 0 u
      → ((j : ℕ) → limit_at laws u j ≡ (if k == j then new else limit_at laws t j))
      → ((l : KLimit F) → new ≡ some l → LimitOk g m side l)
      → ((j a : ℕ) → k ≢ j → OrderOk h n side j a → (g a ≡ h a) × (m (h a).order_id ≡ some a))
      → TreeOk g m side u
  TreeOk-change g h m n side t u k new v sorted at fine keep = record {
    sorted = sorted;
    limits = λ j l e. elim (Bool-cases (k == j)) [
      | inl hit ↦ fine l (sym (at j ∙ rw hit) ∙ e)
      | inr miss ↦
          let old : limit_at laws t j ≡ some l = sym (at j ∙ rw miss) ∙ e in
          let same : rank l.price ≡ j = rank_of_limit_at laws t j l old in
          LimitOk-frame g h m n side l (λ a o. keep (rank l.price) a (ground arith) o)
            (v.limits j l old)
    ];
  }

  -- A tree that is left alone.
  pub TreeOk-frame :
      (g h : Heap F) (m n : ℕ → Option ℕ) (side : Side) (t : List (KLimit F))
      → TreeOk h n side t
      → ((j a : ℕ) → OrderOk h n side j a → (g a ≡ h a) × (m (h a).order_id ≡ some a))
      → TreeOk g m side t
  TreeOk-frame g h m n side t v keep = record {
    sorted = v.sorted;
    limits =
        λ j l e. LimitOk-frame g h m n side l (λ a o. keep (rank l.price) a o) (v.limits j l e);
  }

  All-orders_of :
      (h : Heap F) (m : ℕ → Option ℕ) (side : Side) (t : List (KLimit F)) (k : ℕ)
      (o : Option (KLimit F))
      → TreeOk h m side t
      → limit_at laws t k ≡ o
      → All (OrderOk h m side k) (orders_of o) × Distinct h (orders_of o)
  All-orders_of h m side t k none v e = (tt, tt)
  All-orders_of h m side t k (some l) v e =
      let w = v.limits k l e in
      (
        subst (λ j. All (OrderOk h m side j) l.orders) (rank_of_limit_at laws t k l e) w.at_rest,
        w.distinct,
      )

  -- The orders at a price of a tree are all listed, under distinct ids.
  pub All-orders_at :
      (h : Heap F) (m : ℕ → Option ℕ) (side : Side) (t : List (KLimit F)) (k : ℕ)
      → TreeOk h m side t
      → All (OrderOk h m side k) (orders_at t k) × Distinct h (orders_at t k)
  All-orders_at h m side t k v = All-orders_of h m side t k (limit_at laws t k) v refl

  pub TreeOk-nil : (h : Heap F) (m : ℕ → Option ℕ) (side : Side) → TreeOk h m side []
  unfolding limit_at
  TreeOk-nil h m side = record { sorted = tt; limits = λ k l e. cc }

  pub new_book-IsValid :
      (h : Heap F) (name : Option (List ℕ)) (depth : ℕ) → IsValid (new_book h name depth)
  unfolding new_book
  new_book-IsValid h name depth = record {
    bids = TreeOk-nil h _ bid;
    asks = TreeOk-nil h _ ask;
    lists = λ id a e. cc;
  }

  pub clear-IsValid : (b : KBook F) → IsValid (clear b)
  unfolding clear
  clear-IsValid b = record {
    bids = TreeOk-nil b.heap _ bid;
    asks = TreeOk-nil b.heap _ ask;
    lists = λ id a e. cc;
  }
