-- ===== src/PriceDepth.antt =====
-- order_book/order_book.v1: the book of price levels, with the entries on a heap. `deleted` lists
-- the entries that were destroyed; reading one of them is not told apart. Printing is left out.
pub mod Maps
pub mod Trim
pub mod Undo
pub mod Sorted
mod Tests
use system_k_dev.Base.{
  ℕ, zero, suc, ◌-◌, Bool, true, false, not, ◌||◌, Option, none, some, List, [], ◌∷◌, ◌==◌,
  if◌then◌else◌, length, ◌>>=◌,
}
use system_k_dev.Double.{DoubleOps}
use Maps.{StdMap, find, has, assign, erase, pop_last, string_lt}

-- Of the FIX library: its time stamps, and the codes of the two types of an entry.
pub record FixOps (T : Type 0) : Type 0 where
  pub before : T → T → Bool
  pub midnight : T
  pub entry_type_bid : ℕ
  pub entry_type_offer : ℕ

pub record PriceDepthEntry (F T : Type 0) : Type 0 where
  pub created : T
  pub modified : T
  pub type : ℕ
  pub id : List ℕ
  pub price : F
  pub size : ℕ

-- A map holds the addresses of its entries.
pub record PriceDepthOrderBook (F T : Type 0) : Type 0 where
  pub symbol : List ℕ
  pub depth : ℕ
  pub bid_ids : StdMap (List ℕ) ℕ
  pub bid_prices : StdMap F ℕ
  pub offer_ids : StdMap (List ℕ) ℕ
  pub offer_prices : StdMap F ℕ
  pub last_update_time : T
  pub heap : ℕ → PriceDepthEntry F T
  pub deleted : List ℕ

module _ {F T : Type 0} (d : DoubleOps F) (o : FixOps T) where
  -- The order of the offers is std::less, that of the bids std::greater.
  abbrev pub greater : F → F → Bool
  greater x y = d.lt y x

  unfoldable pub new_price_depth_book :
      (symbol : List ℕ) (depth : ℕ) (heap : ℕ → PriceDepthEntry F T) → PriceDepthOrderBook F T
  new_price_depth_book symbol depth heap = record {
    symbol = symbol;
    depth = depth;
    bid_ids = [];
    bid_prices = [];
    offer_ids = [];
    offer_prices = [];
    last_update_time = o.midnight;
    heap = heap;
    deleted = [];
  }

  abbrev pub later : T → T → T
  later last time = if o.before last time then time else last

  unfoldable pub touch : T → PriceDepthOrderBook F T → PriceDepthOrderBook F T
  touch time b = record b { last_update_time = later b.last_update_time time }

  unfoldable pub find_bid_by_id : List ℕ → PriceDepthOrderBook F T → Option ℕ
  find_bid_by_id id b = find string_lt id b.bid_ids

  unfoldable pub find_offer_by_id : List ℕ → PriceDepthOrderBook F T → Option ℕ
  find_offer_by_id id b = find string_lt id b.offer_ids

  unfoldable pub find_entry_by_id : List ℕ → PriceDepthOrderBook F T → Option ℕ
  unfolding find_bid_by_id find_offer_by_id
  find_entry_by_id id b = elim (find_bid_by_id id b) [
    | none ↦ find_offer_by_id id b
    | some a ↦ some a
  ]

  unfoldable pub has_bid_price : F → PriceDepthOrderBook F T → Bool
  has_bid_price price b = has greater price b.bid_prices

  unfoldable pub has_offer_price : F → PriceDepthOrderBook F T → Bool
  has_offer_price price b = has d.lt price b.offer_prices

  unfoldable pub has_price : F → PriceDepthOrderBook F T → Bool
  unfolding has_bid_price has_offer_price
  has_price price b = has_bid_price price b || has_offer_price price b

  unfoldable pub has_bid_id : List ℕ → PriceDepthOrderBook F T → Bool
  has_bid_id id b = has string_lt id b.bid_ids

  unfoldable pub has_offer_id : List ℕ → PriceDepthOrderBook F T → Bool
  has_offer_id id b = has string_lt id b.offer_ids

  unfoldable pub has_id : List ℕ → PriceDepthOrderBook F T → Bool
  unfolding has_bid_id has_offer_id
  has_id id b = has_bid_id id b || has_offer_id id b

  -- The loop of `trimMap`, for `n` levels too many: the maps, and what it has destroyed. The second
  -- round would decrement the iterator that the first has erased; `none` is undefined behaviour.
  unfoldable pub trim_loop :
      (heap : ℕ → PriceDepthEntry F T) (n : ℕ)
      → StdMap F ℕ
      → StdMap (List ℕ) ℕ
      → (deleted : List ℕ) → Option (StdMap F ℕ × StdMap (List ℕ) ℕ × List ℕ)
  trim_loop heap zero prices ids deleted = some (prices, ids, deleted)
  trim_loop heap (suc zero) prices ids deleted = elim (pop_last prices) [
    | none ↦ none
    | some (prices', (p, a)) ↦ some (prices', erase string_lt (heap a).id ids, a ∷ deleted)
  ]
  trim_loop heap (suc (suc n)) prices ids deleted = none

  -- With `deleteValue`, as `add` calls it.
  unfoldable pub trim_map :
      (heap : ℕ → PriceDepthEntry F T) (depth : ℕ)
      → StdMap F ℕ
      → StdMap (List ℕ) ℕ
      → (deleted : List ℕ) → Option (StdMap F ℕ × StdMap (List ℕ) ℕ × List ℕ)
  unfolding trim_loop
  trim_map heap depth prices ids deleted = trim_loop heap (length prices - depth) prices ids deleted

  unfoldable pub add_bid_entry : ℕ → PriceDepthOrderBook F T → Option (PriceDepthOrderBook F T)
  unfolding trim_map
  add_bid_entry a b = do
    let e = b.heap a
    (prices, ids, deleted) ←
        trim_map b.heap b.depth (assign greater e.price a b.bid_prices)
          (assign string_lt e.id a b.bid_ids) b.deleted
    some (record b { bid_prices = prices; bid_ids = ids; deleted = deleted })

  unfoldable pub add_offer_entry : ℕ → PriceDepthOrderBook F T → Option (PriceDepthOrderBook F T)
  unfolding trim_map
  add_offer_entry a b = do
    let e = b.heap a
    (prices, ids, deleted) ←
        trim_map b.heap b.depth (assign d.lt e.price a b.offer_prices)
          (assign string_lt e.id a b.offer_ids) b.deleted
    some (record b { offer_prices = prices; offer_ids = ids; deleted = deleted })

  -- A null pointer is `none` as an argument.
  unfoldable pub add : Option ℕ → PriceDepthOrderBook F T → Option (Bool × PriceDepthOrderBook F T)
  unfolding touch add_bid_entry add_offer_entry
  add none b = some (false, b)
  add (some a) b =
      let e = b.heap a in
      let b' = touch e.modified b in
      if e.type == o.entry_type_bid
      then (add_bid_entry a b' >>= λ c. some (true, c))
      else if e.type == o.entry_type_offer
      then (add_offer_entry a b' >>= λ c. some (true, c))
      else some (false, b')

  abbrev pub delete_if : Bool → ℕ → List ℕ → List ℕ
  delete_if true a deleted = a ∷ deleted
  delete_if false a deleted = deleted

  unfoldable pub remove_bid :
      List ℕ → T → Bool → ℕ → PriceDepthOrderBook F T → Bool × PriceDepthOrderBook F T
  unfolding touch
  remove_bid id time delete_entry a b =
      if not (has greater (b.heap a).price b.bid_prices) then (false, b) else (
        true,
        touch time (record b {
          bid_prices = erase greater (b.heap a).price b.bid_prices;
          bid_ids = erase string_lt id b.bid_ids;
          deleted = delete_if delete_entry a b.deleted;
        }),
      )

  unfoldable pub remove_offer :
      List ℕ → T → Bool → ℕ → PriceDepthOrderBook F T → Bool × PriceDepthOrderBook F T
  unfolding touch
  remove_offer id time delete_entry a b =
      if not (has d.lt (b.heap a).price b.offer_prices) then (false, b) else (
        true,
        touch time (record b {
          offer_prices = erase d.lt (b.heap a).price b.offer_prices;
          offer_ids = erase string_lt id b.offer_ids;
          deleted = delete_if delete_entry a b.deleted;
        }),
      )

  unfoldable pub remove :
      List ℕ → T → (delete_entry : Bool) → PriceDepthOrderBook F T → Bool × PriceDepthOrderBook F T
  unfolding remove_bid remove_offer
  remove id time delete_entry b = elim (find string_lt id b.bid_ids) [
    | some a ↦ remove_bid id time delete_entry a b
    | none ↦ elim (find string_lt id b.offer_ids) [
      | some a ↦ remove_offer id time delete_entry a b
      | none ↦ (false, b)
    ]
  ]

  -- The time of the book changes even for an id that is unknown.
  unfoldable pub change_size :
      List ℕ → (size : ℕ) → T → PriceDepthOrderBook F T → Bool × PriceDepthOrderBook F T
  unfolding touch find_entry_by_id
  change_size id size time b =
      let b' = touch time b in
      elim (find_entry_by_id id b') [
        | none ↦ (false, b')
        | some a ↦ (
          true,
          record (touch time b') {
            heap = λ x.
                if x == a then record (b.heap x) { size = size; modified = time } else b.heap x;
          },
        )
      ]

  unfoldable pub replace :
      List ℕ → Option ℕ → PriceDepthOrderBook F T → Bool × PriceDepthOrderBook F T
  unfolding touch
  replace id none b = (false, b)
  replace id (some a) b =
      let e = b.heap a in
      let b' = touch e.modified b in
      if has string_lt id b.bid_ids
      then (
        true,
        record b' {
          bid_ids = assign string_lt id a b.bid_ids;
          bid_prices = assign greater e.price a b.bid_prices;
        },
      )
      else if has string_lt id b.offer_ids
      then (
        true,
        record b' {
          offer_ids = assign string_lt id a b.offer_ids;
          offer_prices = assign d.lt e.price a b.offer_prices;
        },
      )
      else (false, b')

  -- `none` is a failed assertion.
  unfoldable pub num_bids : PriceDepthOrderBook F T → Option ℕ
  num_bids b = if length b.bid_ids == length b.bid_prices then some (length b.bid_ids) else none

  unfoldable pub num_offers : PriceDepthOrderBook F T → Option ℕ
  num_offers b =
      if length b.offer_ids == length b.offer_prices then some (length b.offer_ids) else none

  -- An iterator is the rest of the map from it on; the end has no entry, and using it is `none`.
  unfoldable pub walk_to_level : StdMap F ℕ → (level : ℕ) → StdMap F ℕ
  walk_to_level m zero = m
  walk_to_level [] (suc level) = []
  walk_to_level (x ∷ m) (suc level) = walk_to_level m level

  unfoldable pub entry_at : StdMap F ℕ → Option ℕ
  entry_at [] = none
  entry_at ((p, a) ∷ m) = some a

  unfoldable pub walk_to_bid_level : (level : ℕ) → PriceDepthOrderBook F T → Option ℕ
  unfolding walk_to_level entry_at
  walk_to_bid_level level b = entry_at (walk_to_level b.bid_prices level)

  unfoldable pub walk_to_offer_level : (level : ℕ) → PriceDepthOrderBook F T → Option ℕ
  unfolding walk_to_level entry_at
  walk_to_offer_level level b = entry_at (walk_to_level b.offer_prices level)

  unfoldable pub walk_bids :
      (heap : ℕ → PriceDepthEntry F T) → (price : F) → StdMap F ℕ → StdMap F ℕ
  walk_bids heap price [] = []
  walk_bids heap price ((p, a) ∷ m) =
      let rest = walk_bids heap price m in if d.lt (heap a).price price then rest else (p, a) ∷ m

  unfoldable pub walk_offers :
      (heap : ℕ → PriceDepthEntry F T) → (price : F) → StdMap F ℕ → StdMap F ℕ
  walk_offers heap price [] = []
  walk_offers heap price ((p, a) ∷ m) =
      let rest = walk_offers heap price m in if d.lt price (heap a).price then rest else (p, a) ∷ m

  unfoldable pub walk_to_bid_price : F → PriceDepthOrderBook F T → Option ℕ
  unfolding walk_bids entry_at
  walk_to_bid_price price b = entry_at (walk_bids b.heap price b.bid_prices)

  unfoldable pub walk_to_offer_price : F → PriceDepthOrderBook F T → Option ℕ
  unfolding walk_offers entry_at
  walk_to_offer_price price b = entry_at (walk_offers b.heap price b.offer_prices)
