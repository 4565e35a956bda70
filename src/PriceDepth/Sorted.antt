-- ===== src/PriceDepth/Sorted.antt =====
-- order_book/order_book.v1: the levels of a side are in order, the best first.
use system_k_dev.Base.{
  ℕ, ◌≡◌, sym, subst, Bool, true, false, some, [], ◌∷◌, ◌++◌, ◌==◌, ◌≤◌, length, take, drop, arith,
  inl, inr, Bool-cases, take-append-drop,
}
use system_k_dev.Double.{DoubleOps, DoubleLaws}
use system_k_dev.PriceDepth.{FixOps, PriceDepthOrderBook, add}
use system_k_dev.PriceDepth.Maps.{StdMap, assign}
use system_k_dev.PriceDepth.Undo.{has_side}
use system_k_dev.PriceDepth.Trim.{IsAdded, side_lt, side_prices, add-IsAdded}

module _ {F : Type 0} (lt : F → F → Bool) where
  -- The price `p` is before every price of `m`.
  abbrev pub IsFirst : F → StdMap F ℕ → Type 0
  IsFirst p [] = Unit {0}
  IsFirst p ((x, a) ∷ m) = (lt p x ≡ true) × IsFirst p m

  abbrev pub IsSorted : StdMap F ℕ → Type 0
  IsSorted [] = Unit {0}
  IsSorted ((x, a) ∷ m) = IsFirst x m × IsSorted m

  -- Every price of the one is before every price of the other.
  abbrev pub AreBefore : StdMap F ℕ → StdMap F ℕ → Type 0
  AreBefore [] n = Unit {0}
  AreBefore ((x, a) ∷ m) n = IsFirst x n × AreBefore m n

  IsFirst-append : (p : F) (m n : StdMap F ℕ) → IsFirst p (m ++ n) → IsFirst p m × IsFirst p n
  IsFirst-append p [] n h = (tt, h)
  IsFirst-append p ((x, a) ∷ m) n (h, hs) =
      let (on_m, on_n) = IsFirst-append p m n hs in ((h, on_m), on_n)

  IsSorted-append : (m n : StdMap F ℕ) → IsSorted (m ++ n) → IsSorted m × AreBefore m n
  IsSorted-append [] n h = (tt, tt)
  IsSorted-append ((x, a) ∷ m) n (h, hs) =
      let (on_m, on_n) = IsFirst-append x m n h in
      let (sorted, before) = IsSorted-append m n hs in ((on_m, sorted), (on_n, before))

  module _ (trans : (x y z : F) → lt x y ≡ true → lt y z ≡ true → lt x z ≡ true) where
    IsFirst-trans : (p x : F) (m : StdMap F ℕ) → lt p x ≡ true → IsFirst x m → IsFirst p m
    IsFirst-trans p x [] e h = tt
    IsFirst-trans p x ((y, a) ∷ m) e (h, hs) = (trans p x y e h, IsFirst-trans p x m e hs)

    IsFirst-assign :
        (p k : F) (v : ℕ) (m : StdMap F ℕ)
        → lt p k ≡ true
        → IsFirst p m
        → IsFirst p (assign lt k v m)
    unfolding assign
    IsFirst-assign p k v [] e h = (e, tt)
    IsFirst-assign p k v ((x, a) ∷ m) e (h, hs) = elim (Bool-cases (lt k x)) [
      | inl before ↦ rw before (e, (h, hs))
      | inr same ↦ elim (Bool-cases (lt x k)) [
        | inl after ↦ rw same (rw after (h, IsFirst-assign p k v m e hs))
        | inr same' ↦ rw same (rw same' (h, hs))
      ]
    ]

    pub IsSorted-assign : (k : F) (v : ℕ) (m : StdMap F ℕ) → IsSorted m → IsSorted (assign lt k v m)
    unfolding assign
    IsSorted-assign k v [] h = (tt, tt)
    IsSorted-assign k v ((x, a) ∷ m) (h, hs) = elim (Bool-cases (lt k x)) [
      | inl before ↦ rw before ((before, IsFirst-trans k x m before h), (h, hs))
      | inr same ↦ elim (Bool-cases (lt x k)) [
        | inl after ↦ rw same (rw after (IsFirst-assign x k v m after h, IsSorted-assign k v m hs))
        | inr same' ↦ rw same (rw same' (h, hs))
      ]
    ]

module _ {F T : Type 0} (d : DoubleOps F) (o : FixOps T) (laws : DoubleLaws d) where
  lt_trans : (x y z : F) → d.lt x y ≡ true → d.lt y z ≡ true → d.lt x z ≡ true
  lt_trans x y z a b = ground (arith, a, b, laws.lt_rank x y, laws.lt_rank y z, laws.lt_rank x z)

  side_trans :
      (bid : Bool) (x y z : F)
      → side_lt d o bid x y ≡ true
      → side_lt d o bid y z ≡ true
      → side_lt d o bid x z ≡ true
  side_trans true x y z a b = lt_trans z y x b a
  side_trans false x y z a b = lt_trans x y z a b

  -- What `add` has kept and what it has not, on a side that was in order.
  abbrev pub IsBest : (bid : Bool) (a : ℕ) (b b' : PriceDepthOrderBook F T) → Type 0
  IsBest bid a b b' =
      let all = assign (side_lt d o bid) (b.heap a).price a (side_prices d o bid b) in
      IsAdded d o bid a b b'
      × IsSorted (side_lt d o bid) (side_prices d o bid b')
      × AreBefore (side_lt d o bid) (side_prices d o bid b') (drop b.depth all)

  kept-IsBest :
      (bid : Bool) (a : ℕ) (b b' : PriceDepthOrderBook F T)
      → IsSorted (side_lt d o bid) (side_prices d o bid b)
      → IsAdded d o bid a b b'
      → IsBest bid a b b'
  kept-IsBest bid a b b' sorted added =
      let lt = side_lt d o bid in
      let all = assign lt (b.heap a).price a (side_prices d o bid b) in
      let whole =
        subst (IsSorted lt) (sym (take-append-drop b.depth all))
          (IsSorted-assign lt (side_trans bid) (b.heap a).price a (side_prices d o bid b) sorted) in
      let (in_order, before) =
        subst (λ m. IsSorted lt m × AreBefore lt m (drop b.depth all)) (sym added.0.first_ones)
          (IsSorted-append lt (take b.depth all) (drop b.depth all) whole) in
      (added, in_order, before)

  -- On a side whose levels are in order, the best first, and no more than the depth of the book,
  -- `add` of an entry of one of the two types succeeds: the side of its type is what it was with the
  -- entry at its price, but only the first levels up to the depth of the book, and never more than
  -- that; they are again in order, and each of them is better than the other level, if there is one,
  -- whose entry is destroyed, and no others; the other side is unchanged.
  pub add-IsBest :
      (a : ℕ) (b : PriceDepthOrderBook F T)
      → has_side d o a b ≡ true
      → length (side_prices d o ((b.heap a).type == o.entry_type_bid) b) ≤ b.depth
      → IsSorted
          (side_lt d o ((b.heap a).type == o.entry_type_bid))
          (side_prices d o ((b.heap a).type == o.entry_type_bid) b)
      → (b' : PriceDepthOrderBook F T) × (add d o (some a) b ≡ some (true, b'))
        × IsBest ((b.heap a).type == o.entry_type_bid) a b b'
  add-IsBest a b typed few sorted =
      let (b', ok, added) = add-IsAdded d o a b typed few in
      (b', ok, kept-IsBest ((b.heap a).type == o.entry_type_bid) a b b' sorted added)
