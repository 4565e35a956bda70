-- ===== src/Message/Hotspot/Size.antt =====
-- The length of a market snapshot.
use system_k_dev.Base.{ℕ, ◌+◌, ◌≡◌, refl, true, arith}
use system_k_dev.Packet.{
  PacketBase, TextOps, ok, load_times, count_of, read_string, read_int, read_dbl,
}
use system_k_dev.Packet.Size.{
  Advances, total, bind-Advances, pure-Advances, load_times-Advances, read_string-Advances,
  read_int-Advances, read_dbl-Advances,
}
use system_k_dev.Message.Hotspot.{
  Order, BidOrOffer, CurrencyPair, MarketSnapshot, load_order, load_bid_or_offer,
  load_currency_pair, load_market_snapshot,
}

module _ {F : Type 0} where
  -- The characters of a value in a packet.
  unfoldable pub order_size : Order F → ℕ
  order_size o = 63

  unfoldable pub level_size : BidOrOffer F → ℕ
  level_size l = 14 + total order_size l.orders

  unfoldable pub pair_size : CurrencyPair F → ℕ
  pair_size c = 15 + total level_size c.bids + total level_size c.offers

  unfoldable pub snapshot_size : MarketSnapshot F → ℕ
  snapshot_size s = 10 + total pair_size s.currency_pairs

module _ {F : Type 0} (t : TextOps F) where
  load_order-Advances : Advances 0 (load_order t) order_size
  unfolding load_order order_size
  load_order-Advances = bind-Advances _ (read_dbl t 16) _ _ _ (read_dbl-Advances t 16) λ _.
      bind-Advances _ (read_dbl t 16) _ _ _ (read_dbl-Advances t 16) λ _.
        bind-Advances _ (read_dbl t 16) _ _ _ (read_dbl-Advances t 16) λ _.
          bind-Advances _ (read_string t 15 true) _ _ _ (read_string-Advances t 15 true)
            λ _. pure-Advances _ _ _ refl

  load_bid_or_offer-Advances : Advances 0 (load_bid_or_offer t) level_size
  unfolding load_bid_or_offer level_size
  load_bid_or_offer-Advances =
      bind-Advances _ (read_string t 10 true) _ _ _ (read_string-Advances t 10 true) λ _.
        bind-Advances _ (read_int t 4) _ _ _ (read_int-Advances t 4) λ n.
          bind-Advances _ (load_times (count_of n) (load_order t)) _ _ _
            (load_times-Advances _ _ _ load_order-Advances) λ _. pure-Advances _ _ _ (omega arith)

  load_currency_pair-Advances : Advances 0 (load_currency_pair t) pair_size
  unfolding load_currency_pair pair_size
  load_currency_pair-Advances =
      bind-Advances _ (read_string t 7 true) _ _ _ (read_string-Advances t 7 true) λ _.
        bind-Advances _ (read_int t 4) _ _ _ (read_int-Advances t 4) λ n.
          bind-Advances _ (load_times (count_of n) (load_bid_or_offer t)) _ _ _
            (load_times-Advances _ _ _ load_bid_or_offer-Advances)
            λ _. bind-Advances _ (read_int t 4) _ _ _ (read_int-Advances t 4) λ m.
              bind-Advances _ (load_times (count_of m) (load_bid_or_offer t)) _ _ _
                (load_times-Advances _ _ _ load_bid_or_offer-Advances)
                λ _. pure-Advances _ _ _ (omega arith)

  load_market_snapshot-Advances : Advances 0 (load_market_snapshot t) snapshot_size
  unfolding load_market_snapshot snapshot_size
  load_market_snapshot-Advances = bind-Advances _ (read_int t 6) _ _ _ (read_int-Advances t 6) λ _.
      bind-Advances _ (read_int t 4) _ _ _ (read_int-Advances t 4) λ n.
        bind-Advances _ (load_times (count_of n) (load_currency_pair t)) _ _ _
          (load_times-Advances _ _ _ load_currency_pair-Advances)
          λ _. pure-Advances _ _ _ (omega arith)

  -- A market snapshot that loads has taken 10 characters, 15 for each currency pair, 14 for each
  -- of their bids and offers and 63 for each order of these.
  pub load_market_snapshot-size :
      (p q : PacketBase) (s : MarketSnapshot F)
      → load_market_snapshot t p ≡ ok s q
      → q.position ≡ p.position + snapshot_size s
  load_market_snapshot-size p q s e = omega (arith, load_market_snapshot-Advances p s q e)
