-- ===== src/Aggregated/Best.antt =====
-- aggregated_book/aggregated_book.cpp: the quotes that are picked are the best over the venues.
use system_k_dev.Base.{◌≤◌, ◌≡◌, refl, ◌∙◌, ap, List, [], ◌∷◌, arith, ◌⊎◌, inl, inr, map}
use system_k_dev.Double.{DoubleOps, DoubleLaws}
use system_k_dev.Book.Limit.{Timespec}
use system_k_dev.Aggregated.{Venue, InstrumentBbo, expire, better_bid, better_ask, pick_best}

module _ {F : Type 0} where
  abbrev pub SameBid : InstrumentBbo F → InstrumentBbo F → Type 0
  SameBid a b =
      (a.bid_venue_id ≡ b.bid_venue_id) × (a.bid_price ≡ b.bid_price) × (a.bid_size ≡ b.bid_size)

  abbrev pub SameAsk : InstrumentBbo F → InstrumentBbo F → Type 0
  SameAsk a b =
      (a.ask_venue_id ≡ b.ask_venue_id) × (a.ask_price ≡ b.ask_price) × (a.ask_size ≡ b.ask_size)

  -- The quote comes from one of the venues.
  abbrev pub BidFrom : List (Venue F) → InstrumentBbo F → Type 0
  BidFrom [] b = ⊥
  BidFrom (v ∷ vs) b =
      ((b.bid_venue_id ≡ v.venue_id) × (b.bid_price ≡ v.bid_price) × (b.bid_size ≡ v.bid_size))
      ⊎ BidFrom vs b

  abbrev pub AskFrom : List (Venue F) → InstrumentBbo F → Type 0
  AskFrom [] b = ⊥
  AskFrom (v ∷ vs) b =
      ((b.ask_venue_id ≡ v.venue_id) × (b.ask_price ≡ v.ask_price) × (b.ask_size ≡ v.ask_size))
      ⊎ AskFrom vs b

  carry_bid :
      (b0 b1 b : InstrumentBbo F) (v : Venue F) (vs : List (Venue F))
      → SameBid b1 b0 ⊎ BidFrom (v ∷ []) b1
      → SameBid b b1 ⊎ BidFrom vs b
      → SameBid b b0 ⊎ BidFrom (v ∷ vs) b
  carry_bid b0 b1 b v vs p (inr f) = inr (inr f)
  carry_bid b0 b1 b v vs (inl s) (inl (x, y, z)) = inl (x ∙ s.0, y ∙ s.1, z ∙ s.2)
  carry_bid b0 b1 b v vs (inr (inl s)) (inl (x, y, z)) = inr (inl (x ∙ s.0, y ∙ s.1, z ∙ s.2))
  carry_bid b0 b1 b v vs (inr (inr s)) (inl g) = absurd s

  carry_ask :
      (b0 b1 b : InstrumentBbo F) (v : Venue F) (vs : List (Venue F))
      → SameAsk b1 b0 ⊎ AskFrom (v ∷ []) b1
      → SameAsk b b1 ⊎ AskFrom vs b
      → SameAsk b b0 ⊎ AskFrom (v ∷ vs) b
  carry_ask b0 b1 b v vs p (inr f) = inr (inr f)
  carry_ask b0 b1 b v vs (inl s) (inl (x, y, z)) = inl (x ∙ s.0, y ∙ s.1, z ∙ s.2)
  carry_ask b0 b1 b v vs (inr (inl s)) (inl (x, y, z)) = inr (inl (x ∙ s.0, y ∙ s.1, z ∙ s.2))
  carry_ask b0 b1 b v vs (inr (inr s)) (inl g) = absurd s

module _ {F : Type 0} {d : DoubleOps F} (laws : DoubleLaws d) where
  open laws use {rank, lt_rank}

  -- No venue bids more or asks less.
  abbrev pub Unbeaten : List (Venue F) → InstrumentBbo F → Type 0
  Unbeaten [] b = Unit {0}
  Unbeaten (v ∷ vs) b =
      ((rank v.bid_price ≤ rank b.bid_price) × (rank b.ask_price ≤ rank v.ask_price))
      × Unbeaten vs b

  -- The best quotes over the venues and those of `start`.
  pub record IsBest (start : InstrumentBbo F) (vs : List (Venue F)) (b : InstrumentBbo F)
      : Type 0 where
    pub unbeaten : Unbeaten vs b
    pub bid_up : rank start.bid_price ≤ rank b.bid_price
    pub ask_down : rank b.ask_price ≤ rank start.ask_price
    pub bid_from : SameBid b start ⊎ BidFrom vs b
    pub ask_from : SameAsk b start ⊎ AskFrom vs b
    pub symbol : b.symbol ≡ start.symbol

  one_venue :
      (v : Venue F) (b : InstrumentBbo F) → IsBest b (v ∷ []) (better_ask d v (better_bid d v b))
  unfolding better_ask better_bid
  one_venue v b =
      let lt_bid = lt_rank b.bid_price v.bid_price in
      let lt_ask = lt_rank v.ask_price b.ask_price in
      record {
        unbeaten = ground (arith, lt_bid, lt_ask);
        bid_up = ground (arith, lt_bid, lt_ask);
        ask_down = ground (arith, lt_bid, lt_ask);
        bid_from = ground (arith, lt_bid, lt_ask);
        ask_from = ground (arith, lt_bid, lt_ask);
        symbol = ground (arith, lt_bid, lt_ask);
      }

  more :
      (b0 b1 b : InstrumentBbo F) (v : Venue F) (vs : List (Venue F))
      → IsBest b0 (v ∷ []) b1
      → IsBest b1 vs b
      → IsBest b0 (v ∷ vs) b
  more b0 b1 b v vs p q = record {
    unbeaten = (omega (arith, p.unbeaten.0, q.bid_up, q.ask_down), q.unbeaten);
    bid_up = omega (arith, p.bid_up, q.bid_up);
    ask_down = omega (arith, p.ask_down, q.ask_down);
    bid_from = carry_bid b0 b1 b v vs p.bid_from q.bid_from;
    ask_from = carry_ask b0 b1 b v vs p.ask_from q.ask_from;
    symbol = q.symbol ∙ p.symbol;
  }

  -- The loop looks at the venues without the quotes that are too old, and picks the best of them.
  pub pick_best-IsBest :
      (now : Timespec) (start : InstrumentBbo F) (vs : List (Venue F))
      → ((pick_best d now start vs).1 ≡ map (expire d now) vs)
        × IsBest start (map (expire d now) vs) (pick_best d now start vs).0
  unfolding pick_best
  pick_best-IsBest now start [] = (
    refl,
    record {
      unbeaten = tt;
      bid_up = omega arith;
      ask_down = omega arith;
      bid_from = inl (refl, refl, refl);
      ask_from = inl (refl, refl, refl);
      symbol = refl;
    },
  )
  pick_best-IsBest now start (v ∷ vs) =
      let v' = expire d now v in
      let next = better_ask d v' (better_bid d v' start) in
      let (same, best) = pick_best-IsBest now next vs in
      (
        ap (◌∷◌ v') same,
        more start next (pick_best d now next vs).0 v' (map (expire d now) vs) (one_venue v' start)
            best,
      )
