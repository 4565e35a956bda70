-- ===== src/PriceDepth/Undo.antt =====
-- order_book/order_book.v1: an entry is added and removed again.
use system_k_dev.Base.{
  ℕ, ◌-◌, ◌<◌, ◌≡◌, refl, Bool, true, false, ◌||◌, none, some, ◌∷◌, ◌==◌, if◌then◌else◌, length,
  ◌>>=◌, ◌∙◌, ap, arith, inl, inr, Bool-cases,
}
use system_k_dev.Double.{DoubleOps}
use system_k_dev.PriceDepth.{
  FixOps, PriceDepthOrderBook, greater, later, touch, trim_loop, trim_map, add_bid_entry,
  add_offer_entry, add, remove_bid, remove_offer, remove, has_bid_price, has_offer_price,
  has_bid_id, has_offer_id, has_id,
}
use system_k_dev.PriceDepth.Maps.{
  StdMap, find, assign, erase, string_lt, has-none, has-some, find-assign, erase-assign,
  length-assign, string_lt_irrefl,
}

module _ {F T : Type 0} (d : DoubleOps F) (o : FixOps T) where
  -- Of the side of the entry at `a`: is its price taken, and is there room for one more?
  abbrev pub price_taken : ℕ → PriceDepthOrderBook F T → Bool
  price_taken a b =
      if (b.heap a).type == o.entry_type_bid
      then has_bid_price d o (b.heap a).price b
      else has_offer_price d o (b.heap a).price b

  abbrev pub side_size : ℕ → PriceDepthOrderBook F T → ℕ
  side_size a b =
      if (b.heap a).type == o.entry_type_bid then length b.bid_prices else length b.offer_prices

  abbrev pub has_side : ℕ → PriceDepthOrderBook F T → Bool
  has_side a b = ((b.heap a).type == o.entry_type_bid) || ((b.heap a).type == o.entry_type_offer)

  -- With room for it, an entry at a new price is not trimmed.
  room :
      (lt : F → F → Bool) (b : PriceDepthOrderBook F T) (a : ℕ) (m : StdMap F ℕ)
      → length m < b.depth
      → length (assign lt (b.heap a).price a m) - b.depth ≡ 0
  room lt b a m free = omega (arith, free, length-assign lt (b.heap a).price a m)

  added_bid :
      (a : ℕ) (b : PriceDepthOrderBook F T)
      → length b.bid_prices < b.depth
      → add_bid_entry d o a b
        ≡ some (record b {
          bid_prices = assign (greater d o) (b.heap a).price a b.bid_prices;
          bid_ids = assign string_lt (b.heap a).id a b.bid_ids;
        })
  unfolding add_bid_entry trim_map trim_loop
  added_bid a b free = rw (room (greater d o) b a b.bid_prices free) refl

  added_offer :
      (a : ℕ) (b : PriceDepthOrderBook F T)
      → length b.offer_prices < b.depth
      → add_offer_entry d o a b
        ≡ some (record b {
          offer_prices = assign d.lt (b.heap a).price a b.offer_prices;
          offer_ids = assign string_lt (b.heap a).id a b.offer_ids;
        })
  unfolding add_offer_entry trim_map trim_loop
  added_offer a b free = rw (room d.lt b a b.offer_prices free) refl

  -- The book after both calls.
  abbrev pub undone : (a : ℕ) (time : T) → PriceDepthOrderBook F T → PriceDepthOrderBook F T
  undone a time b = record b {
    last_update_time = later d o (later d o b.last_update_time (b.heap a).modified) time;
    deleted = a ∷ b.deleted;
  }

  -- What `remove` does with an id of the bids, and with one of the offers only.
  remove-bid :
      (a : ℕ) (time : T) (c : PriceDepthOrderBook F T)
      → find string_lt (c.heap a).id c.bid_ids ≡ some a
      → find (greater d o) (c.heap a).price c.bid_prices ≡ some a
      → remove d o (c.heap a).id time true c ≡ (
        true,
        touch d o time (record c {
          bid_prices = erase (greater d o) (c.heap a).price c.bid_prices;
          bid_ids = erase string_lt (c.heap a).id c.bid_ids;
          deleted = a ∷ c.deleted;
        }),
      )
  unfolding remove remove_bid
  remove-bid a time c by_id by_price =
      rw (by_id, remove)
        (rw (has-some (greater d o) (c.heap a).price a c.bid_prices by_price, remove_bid) refl)

  remove-offer :
      (a : ℕ) (time : T) (c : PriceDepthOrderBook F T)
      → find string_lt (c.heap a).id c.bid_ids ≡ none
      → find string_lt (c.heap a).id c.offer_ids ≡ some a
      → find d.lt (c.heap a).price c.offer_prices ≡ some a
      → remove d o (c.heap a).id time true c ≡ (
        true,
        touch d o time (record c {
          offer_prices = erase d.lt (c.heap a).price c.offer_prices;
          offer_ids = erase string_lt (c.heap a).id c.offer_ids;
          deleted = a ∷ c.deleted;
        }),
      )
  unfolding remove remove_offer
  remove-offer a time c no_bid by_id by_price =
      rw (no_bid, remove)
        (rw by_id
          (rw (has-some d.lt (c.heap a).price a c.offer_prices by_price, remove_offer) refl))

  undo_bid :
      (a : ℕ) (time : T) (b : PriceDepthOrderBook F T)
      → d.lt (b.heap a).price (b.heap a).price ≡ false
      → has_bid_id d o (b.heap a).id b ≡ false
      → has_bid_price d o (b.heap a).price b ≡ false
      → length b.bid_prices < b.depth
      → (c : PriceDepthOrderBook F T) × (add_bid_entry d o a (touch d o (b.heap a).modified b)
          ≡ some c)
        × (remove d o (b.heap a).id time true c ≡ (true, undone a time b))
  unfolding has_bid_id has_bid_price touch
  undo_bid a time b same new_id new_price free =
      let e = b.heap a in
      let irr = string_lt_irrefl e.id in
      (
        _,
        added_bid a (touch d o e.modified b) free,
        rw
            (remove-bid a time
              (record (touch d o e.modified b) {
                bid_prices = assign (greater d o) e.price a b.bid_prices;
                bid_ids = assign string_lt e.id a b.bid_ids;
              })
              (find-assign string_lt e.id a b.bid_ids irr)
              (find-assign (greater d o) e.price a b.bid_prices same))
            (rw
              (erase-assign string_lt e.id a b.bid_ids irr
                (has-none string_lt e.id b.bid_ids new_id))
              (rw
                (erase-assign (greater d o) e.price a b.bid_prices same
                  (has-none (greater d o) e.price b.bid_prices new_price))
                refl)),
      )

  undo_offer :
      (a : ℕ) (time : T) (b : PriceDepthOrderBook F T)
      → d.lt (b.heap a).price (b.heap a).price ≡ false
      → has_bid_id d o (b.heap a).id b ≡ false
      → has_offer_id d o (b.heap a).id b ≡ false
      → has_offer_price d o (b.heap a).price b ≡ false
      → length b.offer_prices < b.depth
      → (c : PriceDepthOrderBook F T) × (add_offer_entry d o a (touch d o (b.heap a).modified b)
          ≡ some c)
        × (remove d o (b.heap a).id time true c ≡ (true, undone a time b))
  unfolding has_bid_id has_offer_id has_offer_price touch
  undo_offer a time b same no_bid new_id new_price free =
      let e = b.heap a in
      let irr = string_lt_irrefl e.id in
      (
        _,
        added_offer a (touch d o e.modified b) free,
        rw
            (remove-offer a time
              (record (touch d o e.modified b) {
                offer_prices = assign d.lt e.price a b.offer_prices;
                offer_ids = assign string_lt e.id a b.offer_ids;
              })
              (has-none string_lt e.id b.bid_ids no_bid)
              (find-assign string_lt e.id a b.offer_ids irr)
              (find-assign d.lt e.price a b.offer_prices same))
            (rw
              (erase-assign string_lt e.id a b.offer_ids irr
                (has-none string_lt e.id b.offer_ids new_id))
              (rw
                (erase-assign d.lt e.price a b.offer_prices same
                  (has-none d.lt e.price b.offer_prices new_price))
                refl)),
      )

  pub add-bid :
      (a : ℕ) (b : PriceDepthOrderBook F T)
      → ((b.heap a).type == o.entry_type_bid) ≡ true
      → add d o (some a) b
        ≡ (add_bid_entry d o a (touch d o (b.heap a).modified b) >>= λ c. some (true, c))
  unfolding add
  add-bid a b bid = rw (bid, add) refl

  pub add-offer :
      (a : ℕ) (b : PriceDepthOrderBook F T)
      → ((b.heap a).type == o.entry_type_bid) ≡ false
      → ((b.heap a).type == o.entry_type_offer) ≡ true
      → add d o (some a) b
        ≡ (add_offer_entry d o a (touch d o (b.heap a).modified b) >>= λ c. some (true, c))
  unfolding add
  add-offer a b no_bid offer = rw (no_bid, add) (rw offer refl)

  -- An entry of one of the two types, whose price is equal to itself, with an id that the book has
  -- not and a price that its side has not, on a side that is not full: `add` succeeds, and `remove`
  -- of its id then succeeds and leaves the book as it was, but for the time, which has become the
  -- latest of the three, and the entry, which is destroyed.
  pub remove-add :
      (a : ℕ) (time : T) (b : PriceDepthOrderBook F T)
      → has_side a b ≡ true
      → d.lt (b.heap a).price (b.heap a).price ≡ false
      → has_id d o (b.heap a).id b ≡ false
      → price_taken a b ≡ false
      → side_size a b < b.depth
      → (c : PriceDepthOrderBook F T) × (add d o (some a) b ≡ some (true, c))
        × (remove d o (b.heap a).id time true c ≡ (true, undone a time b))
  unfolding has_id
  remove-add a time b typed same new_id new_price free =
      elim (Bool-cases ((b.heap a).type == o.entry_type_bid)) [
        | inl bid ↦
            let (c, e, back) =
              undo_bid a time b same (ground (arith, new_id)) (ground (arith, bid, new_price))
                (ground (arith, bid, free)) in
            (c, add-bid a b bid ∙ ap (λ r. r >>= λ c. some (true, c)) e, back)
        | inr no_bid ↦
            let (c, e, back) =
              undo_offer a time b same (ground (arith, new_id)) (ground (arith, new_id))
                (ground (arith, no_bid, new_price)) (ground (arith, no_bid, free)) in
            (
              c,
              add-offer a b no_bid (ground (arith, no_bid, typed))
                  ∙ ap (λ r. r >>= λ c. some (true, c)) e,
              back,
            )
      ]
