-- ===== src/PriceDepth/Trim.antt =====
-- order_book/order_book.v1: a side keeps its first levels, up to the depth of the book.
use mathlib.Core.List.{append-nil}
use system_k_dev.Base.{
  ℕ, zero, suc, ◌-◌, ◌≤◌, ◌≡◌, refl, sym, ◌∙◌, ap, Bool, true, false, not, some, List, [], ◌∷◌,
  ◌++◌, ◌==◌, if◌then◌else◌, length, ◌>>=◌, subst, take, drop, map, arith, inl, inr, Bool-cases,
  length-drop, length-take, take-append-drop,
}
use system_k_dev.Double.{DoubleOps}
use system_k_dev.PriceDepth.{
  FixOps, PriceDepthEntry, PriceDepthOrderBook, greater, touch, trim_loop, trim_map, add_bid_entry,
  add_offer_entry, add,
}
use system_k_dev.PriceDepth.Maps.{StdMap, assign, erase, string_lt, pop_last, length-assign}
use system_k_dev.PriceDepth.Undo.{has_side, add-bid, add-offer}

pop_last-append : {A : Type 0} (xs : List A) (x : A) → pop_last (xs ++ (x ∷ [])) ≡ some (xs, x)
unfolding pop_last
pop_last-append [] x = refl
pop_last-append (y ∷ xs) x = rw (pop_last-append xs x) refl

-- The addresses of a map's entries.
abbrev pub addresses {ℓ} : {K : Type ℓ} → StdMap K ℕ → List ℕ
addresses m = map (λ x. x.1) m

module _ {F T : Type 0} (d : DoubleOps F) (o : FixOps T) where
  -- A side and the entries destroyed, after a trim of the levels `all`: the first of them stay, and
  -- the others are destroyed.
  pub record IsTrimmed (depth : ℕ) (all kept : StdMap F ℕ) (deleted deleted' : List ℕ)
      : Type 0 where
    pub first_ones : kept ≡ take depth all
    pub rest : deleted' ≡ addresses (drop depth all) ++ deleted
    pub bounded : length kept ≤ depth

  trim_loop-append :
      (heap : ℕ → PriceDepthEntry F T) (n : ℕ) (kept rest : StdMap F ℕ) (ids : StdMap (List ℕ) ℕ)
      (deleted : List ℕ)
      → length rest ≡ n
      → n ≤ 1
      → (ids' : StdMap (List ℕ) ℕ) × (trim_loop d o heap n (kept ++ rest) ids deleted
          ≡ some (kept, ids', addresses rest ++ deleted))
  unfolding trim_loop
  trim_loop-append heap zero kept [] ids deleted e few =
      (ids, ap (λ m. some (m, ids, deleted)) (append-nil kept))
  trim_loop-append heap zero kept (x ∷ rest) ids deleted e few = absurd (omega (arith, e))
  trim_loop-append heap (suc zero) kept [] ids deleted e few = absurd (omega (arith, e))
  trim_loop-append heap (suc zero) kept (x ∷ []) ids deleted e few =
      (erase string_lt (heap x.1).id ids, rw (pop_last-append kept x, trim_loop) refl)
  trim_loop-append heap (suc zero) kept (x ∷ y ∷ rest) ids deleted e few = absurd (omega (arith, e))
  trim_loop-append heap (suc (suc n)) kept rest ids deleted e few = absurd (omega (arith, few))

  -- With one level too many at most.
  trim_map-IsTrimmed :
      (heap : ℕ → PriceDepthEntry F T) (depth : ℕ) (all : StdMap F ℕ) (ids : StdMap (List ℕ) ℕ)
      (deleted : List ℕ)
      → length all ≤ suc depth
      → (kept : StdMap F ℕ) × (ids' : StdMap (List ℕ) ℕ) × (deleted' : List ℕ) × (trim_map d o heap
            depth all ids deleted
          ≡ some (kept, ids', deleted'))
        × IsTrimmed depth all kept deleted deleted'
  unfolding trim_map
  trim_map-IsTrimmed heap depth all ids deleted few =
      let (ids', e) =
        trim_loop-append heap (length all - depth) (take depth all) (drop depth all) ids deleted
          (length-drop depth all) (omega (arith, few)) in
      (
        take depth all,
        ids',
        addresses (drop depth all) ++ deleted,
        ap (λ m. trim_loop d o heap (length all - depth) m ids deleted)
              (sym (take-append-drop depth all))
            ∙ e,
        record { first_ones = refl; rest = refl; bounded = omega (arith, length-take depth all) },
      )

  -- The side of the bids, or of the offers: its order, and its levels.
  abbrev pub side_lt : (bid : Bool) → F → F → Bool
  side_lt bid = if bid then greater d o else d.lt

  abbrev pub side_prices : (bid : Bool) → PriceDepthOrderBook F T → StdMap F ℕ
  side_prices bid b = if bid then b.bid_prices else b.offer_prices

  -- The entry at `a` is put at its price on its side, and the side is trimmed; the other side
  -- stays.
  abbrev pub IsAdded : (bid : Bool) (a : ℕ) (b b' : PriceDepthOrderBook F T) → Type 0
  IsAdded bid a b b' =
      IsTrimmed b.depth (assign (side_lt bid) (b.heap a).price a (side_prices bid b))
        (side_prices bid b') b.deleted b'.deleted
      × (side_prices (not bid) b' ≡ side_prices (not bid) b)

  -- The levels of a side with one more entry.
  fits :
      (lt : F → F → Bool) (k : F) (a n : ℕ) (m : StdMap F ℕ)
      → length m ≤ n
      → length (assign lt k a m) ≤ suc n
  fits lt k a n m few = omega (arith, few, length-assign lt k a m)

  add_bid_entry-IsAdded :
      (a : ℕ) (b : PriceDepthOrderBook F T)
      → length b.bid_prices ≤ b.depth
      → (b' : PriceDepthOrderBook F T) × (add_bid_entry d o a b ≡ some b') × IsAdded true a b b'
  unfolding add_bid_entry
  add_bid_entry-IsAdded a b few =
      let (prices, ids, deleted, e, trimmed) =
        trim_map-IsTrimmed b.heap b.depth (assign (greater d o) (b.heap a).price a b.bid_prices)
          (assign string_lt (b.heap a).id a b.bid_ids) b.deleted
          (fits (greater d o) (b.heap a).price a b.depth b.bid_prices few) in
      (
        record b { bid_prices = prices; bid_ids = ids; deleted = deleted },
        ap
            (λ r. r >>= λ (prices, ids, deleted).
              some (record b { bid_prices = prices; bid_ids = ids; deleted = deleted }))
            e,
        (trimmed, refl),
      )

  add_offer_entry-IsAdded :
      (a : ℕ) (b : PriceDepthOrderBook F T)
      → length b.offer_prices ≤ b.depth
      → (b' : PriceDepthOrderBook F T) × (add_offer_entry d o a b ≡ some b') × IsAdded false a b b'
  unfolding add_offer_entry
  add_offer_entry-IsAdded a b few =
      let (prices, ids, deleted, e, trimmed) =
        trim_map-IsTrimmed b.heap b.depth (assign d.lt (b.heap a).price a b.offer_prices)
          (assign string_lt (b.heap a).id a b.offer_ids) b.deleted
          (fits d.lt (b.heap a).price a b.depth b.offer_prices few) in
      (
        record b { offer_prices = prices; offer_ids = ids; deleted = deleted },
        ap
            (λ r. r >>= λ (prices, ids, deleted).
              some (record b { offer_prices = prices; offer_ids = ids; deleted = deleted }))
            e,
        (trimmed, refl),
      )

  -- `add` of an entry of one of the two types, to a side with no more levels than the depth of the
  -- book, succeeds: the side of its type is what it was with the entry at its price, but only the
  -- first levels up to the depth of the book, and never more than that; the entry of the other
  -- level, if there is one, is destroyed, and no others; the other side is unchanged.
  pub add-IsAdded :
      (a : ℕ) (b : PriceDepthOrderBook F T)
      → has_side d o a b ≡ true
      → length (side_prices ((b.heap a).type == o.entry_type_bid) b) ≤ b.depth
      → (b' : PriceDepthOrderBook F T) × (add d o (some a) b ≡ some (true, b'))
        × IsAdded ((b.heap a).type == o.entry_type_bid) a b b'
  unfolding touch
  add-IsAdded a b typed few = elim (Bool-cases ((b.heap a).type == o.entry_type_bid)) [
    | inl bid ↦
        let (b', e, added) =
          add_bid_entry-IsAdded a (touch d o (b.heap a).modified b) (ground (arith, bid, few)) in
        (
          b',
          add-bid d o a b bid ∙ ap (λ r. r >>= λ c. some (true, c)) e,
          subst (λ side. IsAdded side a b b') (sym bid) added,
        )
    | inr no_bid ↦
        let (b', e, added) =
          add_offer_entry-IsAdded a (touch d o (b.heap a).modified b)
            (ground (arith, no_bid, few)) in
        (
          b',
          add-offer d o a b no_bid (ground (arith, no_bid, typed))
              ∙ ap (λ r. r >>= λ c. some (true, c)) e,
          subst (λ side. IsAdded side a b b') (sym no_bid) added,
        )
  ]
