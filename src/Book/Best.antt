-- ===== src/Book/Best.antt =====
-- The best price of a valid book.
use system_k_dev.Base.{
  ℕ, suc, ◌<◌, ◌≤◌, ◌≡◌, refl, Option, none, some, List, [], ◌∷◌, arith, length, inl, inr, ◌⊎◌,
  subst, length-map,
}
use system_k_dev.Double.{DoubleOps, DoubleLaws}
use system_k_dev.Book.Limit.{Side, bid, ask, KLimit, Heap}
use system_k_dev.Book.{KBook, best_price, last_limit, no_bid, no_ask}
use system_k_dev.Book.Tree.{limit_at, limit_at_below, Ascending}
use system_k_dev.Book.Orders.{values}
use system_k_dev.Book.Valid.{TreeOk, IsValid, orders_at, level}

module _ {F : Type 0} {d : DoubleOps F} (laws : DoubleLaws d) where
  open laws use {rank}

  -- Either a side has no orders and its best price is the given one, or there are orders at the
  -- best price and none at a better one.
  abbrev pub IsBest : (b : KBook F) → Side → F → (price : F) → (ℕ → ℕ → Type 0) → Type 0
  IsBest b side empty price Better =
      (((k : ℕ) → level laws b side k ≡ []) × (price ≡ empty))
      ⊎ ((0 < length (level laws b side (rank price)))
          × ((k : ℕ) → Better k (rank price) → level laws b side k ≡ []))

  last_is :
      (t : List (KLimit F)) (lo : ℕ)
      → Ascending laws lo t
      → ((last_limit t ≡ none) × (t ≡ []))
        ⊎ ((l : KLimit F) × (last_limit t ≡ some l)
            × (limit_at laws t (rank l.price) ≡ some l)
            × (lo ≤ rank l.price)
            × ((k : ℕ) → rank l.price < k → limit_at laws t k ≡ none))
  unfolding limit_at
  last_is [] lo s = inl (refl, refl)
  last_is (l ∷ t) lo s = elim (last_is t (suc (rank l.price)) s.1) [
    | inl (e, n) ↦ inr (l, rw e refl, ground arith, s.0, λ k h. rw n (ground arith))
    | inr (m, e, at, le, above) ↦ inr (
      m,
      rw e refl,
      ground (arith, at),
      ground (arith, le, s.0),
      λ k h. ground (arith, above k h, le, s.0),
    )
  ]

  some_at :
      (h : Heap F) (m : ℕ → Option ℕ) (side : Side) (t : List (KLimit F)) (l : KLimit F)
      → TreeOk laws h m side t
      → limit_at laws t (rank l.price) ≡ some l
      → 0 < length (values h (orders_at laws t (rank l.price)))
  some_at h m side t l w e = rw (e, length-map l.orders h) (w.limits (rank l.price) l e).some_orders

  none_at :
      (h : Heap F) (t : List (KLimit F)) (k : ℕ)
      → limit_at laws t k ≡ none
      → values h (orders_at laws t k) ≡ []
  none_at h t k e = rw e refl

  module _ (b : KBook F) (v : IsValid laws b) where
    -- On a valid book the best bid price is the highest price with a bid, and the value that
    -- stands for no bid where there is none.
    pub best_price-bid : IsBest b bid (d.of_int no_bid) (best_price d b bid) (λ k best. best < k)
    unfolding best_price limit_at
    best_price-bid = elim (last_is b.bid_tree 0 v.bids.sorted) [
      | inl (e, n) ↦ rw (best_price, e) (inl (λ k. none_at b.heap b.bid_tree k (rw n refl), refl))
      | inr (l, e, at, le, above) ↦
          rw (best_price, e)
            (inr (
              some_at b.heap b.order_map bid b.bid_tree l v.bids at,
              λ k h. none_at b.heap b.bid_tree k (above k h),
            ))
    ]

    ask_best :
        (t : List (KLimit F))
        → b.ask_tree ≡ t
        → IsBest b ask (d.of_int no_ask) (best_price d b ask) (λ k best. k < best)
    unfolding best_price limit_at
    ask_best [] e = rw (best_price, e) (inl (λ k. none_at b.heap [] k refl, refl))
    ask_best (l ∷ t) e =
        let sorted : Ascending laws 0 (l ∷ t) = subst (Ascending laws 0) e v.asks.sorted in
        rw (best_price, e)
          (inr (
            some_at b.heap b.order_map ask (l ∷ t) l
                (subst (TreeOk laws b.heap b.order_map ask) e v.asks) (ground arith),
            λ k h.
                none_at b.heap (l ∷ t) k
                  ((ground (arith, limit_at_below laws t (suc (rank l.price)) k sorted.1))),
          ))

    -- On a valid book the best ask price is the lowest price with an ask, and the value that
    -- stands for no ask where there is none.
    pub best_price-ask : IsBest b ask (d.of_int no_ask) (best_price d b ask) (λ k best. k < best)
    best_price-ask = ask_best b.ask_tree refl
