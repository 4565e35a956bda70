-- ===== src/Message/Hotspot/Safe.antt =====
-- The loads of the payload messages stay within the packet.
use system_k_dev.Base.{ℕ, suc, ◌<◌, ◌≡◌, true, length}
use system_k_dev.Packet.{
  PacketBase, TextOps, ok, load_times, count_of, read_char, read_string, read_int, read_dbl,
  read_until_tlf,
}
use system_k_dev.Packet.Safe.{
  Safe, Safe-pure, Safe-bind, load_times-Safe, read_char-Safe, read_string-Safe, read_int-Safe,
  read_dbl-Safe, read_until_tlf-Safe, AllSafe, read_until_tlf-ok, bind-ok,
}
use system_k_dev.Message.Hotspot.{
  Payload, unsupported_payload, load_new_order, load_modify_order, load_cancel_order, load_ticker,
  load_order, load_bid_or_offer, load_currency_pair, load_market_snapshot, hotspotfx_creators,
  load_unsupported_payload,
}

module _ {F : Type 0} (t : TextOps F) where
  load_new_order-Safe : Safe (load_new_order t)
  unfolding load_new_order
  load_new_order-Safe = Safe-bind read_char _ read_char-Safe λ _.
      Safe-bind (read_string t 7 true) _ (read_string-Safe t 7 true) λ _.
        Safe-bind (read_string t 15 true) _ (read_string-Safe t 15 true) λ _.
          Safe-bind (read_string t 10 true) _ (read_string-Safe t 10 true) λ _.
            Safe-bind (read_dbl t 16) _ (read_dbl-Safe t 16) λ _.
              Safe-bind (read_dbl t 16) _ (read_dbl-Safe t 16)
                λ _. Safe-bind (read_dbl t 16) _ (read_dbl-Safe t 16) λ _. Safe-pure _

  load_modify_order-Safe : Safe (load_modify_order t)
  unfolding load_modify_order
  load_modify_order-Safe = Safe-bind (read_string t 7 true) _ (read_string-Safe t 7 true) λ _.
      Safe-bind (read_string t 15 true) _ (read_string-Safe t 15 true) λ _.
        Safe-bind (read_dbl t 16) _ (read_dbl-Safe t 16) λ _.
          Safe-bind (read_dbl t 16) _ (read_dbl-Safe t 16)
            λ _. Safe-bind (read_dbl t 16) _ (read_dbl-Safe t 16) λ _. Safe-pure _

  load_cancel_order-Safe : Safe (load_cancel_order t)
  unfolding load_cancel_order
  load_cancel_order-Safe =
      Safe-bind (read_string t 7 true) _ (read_string-Safe t 7 true)
        λ _. Safe-bind (read_string t 15 true) _ (read_string-Safe t 15 true) λ _. Safe-pure _

  load_ticker-Safe : Safe (load_ticker t)
  unfolding load_ticker
  load_ticker-Safe = Safe-bind read_char _ read_char-Safe λ _.
      Safe-bind (read_string t 7 true) _ (read_string-Safe t 7 true) λ _.
        Safe-bind (read_string t 10 true) _ (read_string-Safe t 10 true) λ _.
          Safe-bind (read_string t 8 true) _ (read_string-Safe t 8 true)
            λ _. Safe-bind (read_string t 6 true) _ (read_string-Safe t 6 true) λ _. Safe-pure _

  load_order-Safe : Safe (load_order t)
  unfolding load_order
  load_order-Safe = Safe-bind (read_dbl t 16) _ (read_dbl-Safe t 16) λ _.
      Safe-bind (read_dbl t 16) _ (read_dbl-Safe t 16) λ _.
        Safe-bind (read_dbl t 16) _ (read_dbl-Safe t 16)
          λ _. Safe-bind (read_string t 15 true) _ (read_string-Safe t 15 true) λ _. Safe-pure _

  load_bid_or_offer-Safe : Safe (load_bid_or_offer t)
  unfolding load_bid_or_offer
  load_bid_or_offer-Safe = Safe-bind (read_string t 10 true) _ (read_string-Safe t 10 true) λ _.
      Safe-bind (read_int t 4) _ (read_int-Safe t 4) λ n.
        Safe-bind (load_times (count_of n) (load_order t)) _ (load_times-Safe _ _ load_order-Safe)
          λ _. Safe-pure _

  load_currency_pair-Safe : Safe (load_currency_pair t)
  unfolding load_currency_pair
  load_currency_pair-Safe = Safe-bind (read_string t 7 true) _ (read_string-Safe t 7 true) λ _.
      Safe-bind (read_int t 4) _ (read_int-Safe t 4) λ n.
        Safe-bind (load_times (count_of n) (load_bid_or_offer t)) _
          (load_times-Safe _ _ load_bid_or_offer-Safe)
          λ _. Safe-bind (read_int t 4) _ (read_int-Safe t 4) λ m.
            Safe-bind (load_times (count_of m) (load_bid_or_offer t)) _
              (load_times-Safe _ _ load_bid_or_offer-Safe) λ _. Safe-pure _

  load_market_snapshot-Safe : Safe (load_market_snapshot t)
  unfolding load_market_snapshot
  load_market_snapshot-Safe = Safe-bind (read_int t 6) _ (read_int-Safe t 6) λ _.
      Safe-bind (read_int t 4) _ (read_int-Safe t 4) λ n.
        Safe-bind (load_times (count_of n) (load_currency_pair t)) _
          (load_times-Safe _ _ load_currency_pair-Safe) λ _. Safe-pure _

pub hotspotfx_creators-AllSafe : {F : Type 0} (t : TextOps F) → AllSafe (hotspotfx_creators t)
unfolding hotspotfx_creators
hotspotfx_creators-AllSafe t = (
  Safe-bind (load_new_order t) _ (load_new_order-Safe t) λ _. Safe-pure _,
  (
    Safe-bind (load_modify_order t) _ (load_modify_order-Safe t) λ _. Safe-pure _,
    (
      Safe-bind (load_cancel_order t) _ (load_cancel_order-Safe t) λ _. Safe-pure _,
      (
        Safe-bind (load_ticker t) _ (load_ticker-Safe t) λ _. Safe-pure _,
        (Safe-bind (load_market_snapshot t) _ (load_market_snapshot-Safe t) λ _. Safe-pure _, tt),
      ),
    ),
  ),
)

pub load_unsupported_payload-Safe :
    {F : Type 0} (t : TextOps F) (type : ℕ) → Safe (load_unsupported_payload t type)
unfolding load_unsupported_payload
load_unsupported_payload-Safe t type =
    Safe-bind read_until_tlf _ read_until_tlf-Safe λ _. Safe-pure _

pub load_unsupported_payload-ok :
    {F : Type 0} (t : TextOps F) (type : ℕ) (p : PacketBase)
    → suc p.position < length p.buffer
    → (m : Payload F) × (q : PacketBase) × (load_unsupported_payload t type p ≡ ok m q)
unfolding load_unsupported_payload
load_unsupported_payload-ok t type p h =
    let (body, q, e) = read_until_tlf-ok p h in
    (unsupported_payload type body, q, bind-ok read_until_tlf _ p q body e)
