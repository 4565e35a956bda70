-- ===== src/Broker/Refine/Incoming.antt =====
-- order_entry/order-fix/msg_processor.cpp: what a message of a strategy leads to, on frames.
use system_k_dev.Base.{
  ℕ, ◌<◌, ◌^◌, ◌≡◌, ◌⊎◌, refl, Bool, true, false, List, [], ◌∷◌, ◌++◌, ◌==◌, length, arith, ltb,
  ◌||◌,
}
use system_k_dev.Route.{Bytes, Route, zmq_addr_len}
use system_k_dev.Route.Cache.{le_bytes, of_le_bytes, length-le_bytes}
use system_k_dev.Broker.Turns.{done}
use system_k_dev.Broker.Maps.{MapOps, MapLaws, is_id}
use system_k_dev.Broker.{
  Frame, OrderInfo, Broker, order_new, order_cancel, order_replace, strategy_helo, heartbeat,
  size_of_type, deleted_strategy, deleted_order, type_of, snd_heartbeat_ack, handle_helo,
  handle_order, handle_incoming_client_message,
}
use system_k_dev.Broker.Frames.{one_hop, return_route-one_hop, type_of-le_bytes, set_id-is_id}

module _ {M N : Type 0} (maps : MapOps M Route) (orders : MapOps N OrderInfo)
    (laws : MapLaws maps deleted_strategy) (order_laws : MapLaws orders deleted_order)
    (venue_id : ℕ) where
  -- What the three kinds of messages lead to.
  pub incoming-helo :
      (opens : Bool) (u : ℕ) (b : Broker M N) (address sid : Bytes) (fs : List Frame)
      → length address ≡ zmq_addr_len
      → is_id deleted_strategy sid ≡ true
      → b.strategy_msgs
        ≡ (address, true) ∷ ((le_bytes size_of_type strategy_helo, true) ∷ ((sid, false) ∷ fs))
      → handle_incoming_client_message maps orders opens u b
        ≡ done
            (handle_helo maps orders opens sid (one_hop address) (record b { strategy_msgs = fs }))
  unfolding handle_incoming_client_message le_bytes type_of of_le_bytes
  incoming-helo opens u b address sid fs a i e =
      rw (e, handle_incoming_client_message)
        (rw (return_route-one_hop address a) (rw (set_id-is_id deleted_strategy sid i) refl))

  pub incoming-beat :
      (opens : Bool) (u : ℕ) (b : Broker M N) (address sid : Bytes) (fs : List Frame)
      → length address ≡ zmq_addr_len
      → is_id deleted_strategy sid ≡ true
      → b.strategy_msgs
        ≡ (address, true) ∷ ((le_bytes size_of_type heartbeat, true) ∷ ((sid, false) ∷ fs))
      → handle_incoming_client_message maps orders opens u b
        ≡ done (snd_heartbeat_ack maps orders sid (record b { strategy_msgs = fs }))
  unfolding handle_incoming_client_message le_bytes type_of of_le_bytes
  incoming-beat opens u b address sid fs a i e =
      rw (e, handle_incoming_client_message)
        (rw (return_route-one_hop address a) (rw (set_id-is_id deleted_strategy sid i) refl))

  -- The order as the broker keeps it.
  abbrev pub ordered :
      (u type : ℕ) (oid sid payload : Bytes) (fs : List Frame) → Broker M N → Broker M N
  ordered u type oid sid payload fs b = record b {
    strategy_msgs = fs;
    ocache = orders.insert oid (record { oid = oid; sid = sid; status = u }) b.ocache;
    dispatched = b.dispatched ++ ((type, payload) ∷ []);
  }

  pub handle_order-ordered :
      (u type : ℕ) (b : Broker M N) (oid sid payload : Bytes) (fs : List Frame)
      → (type ≡ order_new) ⊎ ((type ≡ order_cancel) ⊎ (type ≡ order_replace))
      → is_id deleted_order oid ≡ true
      → b.strategy_msgs ≡ (oid, true) ∷ ((payload, false) ∷ fs)
      → handle_order maps orders u type sid b ≡ done (ordered u type oid sid payload fs b)
  unfolding handle_order
  handle_order-ordered u type b oid sid payload fs t i e =
      let known : ((type == order_new) || ((type == order_cancel) || (type == order_replace)))
          ≡ true =
        ground (arith, t) in
      rw known (rw (e, handle_order) (rw (set_id-is_id deleted_order oid i) refl))

  pub incoming-order :
      (opens : Bool) (u type : ℕ) (b : Broker M N) (address sid oid payload : Bytes)
      (fs : List Frame)
      → length address ≡ zmq_addr_len
      → is_id deleted_strategy sid ≡ true
      → (type ≡ order_new) ⊎ ((type ≡ order_cancel) ⊎ (type ≡ order_replace))
      → is_id deleted_order oid ≡ true
      → b.strategy_msgs
        ≡ (address, true)
          ∷ ((le_bytes size_of_type type, true)
              ∷ ((sid, true) ∷ ((oid, true) ∷ ((payload, false) ∷ fs))))
      → handle_incoming_client_message maps orders opens u b
        ≡ done (ordered u type oid sid payload fs b)
  unfolding handle_incoming_client_message
  incoming-order opens u type b address sid oid payload fs a i t j e =
      let small : type < 256 ^ size_of_type = ground (arith, t) in
      let whole : ltb (length (le_bytes size_of_type type)) size_of_type ≡ false =
        ground (arith, length-le_bytes size_of_type type) in
      let no_helo : (type == strategy_helo) ≡ false = ground (arith, t) in
      let no_beat : (type == heartbeat) ≡ false = ground (arith, t) in
      rw (e, handle_incoming_client_message)
        (rw (return_route-one_hop address a) (
          rw whole (
            rw (type_of-le_bytes type small) (
              rw no_helo (
                rw no_beat (
                  rw (set_id-is_id deleted_strategy sid i) (
                    handle_order-ordered u type
                      (record b { strategy_msgs = (oid, true) ∷ ((payload, false) ∷ fs) }) oid sid
                      payload fs t j refl)))))))
