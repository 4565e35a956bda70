-- ===== src/Broker/Refine/Outgoing.antt =====
-- order_entry/order-fix/msg_processor.cpp: a message of the interface goes to the address of its strategy.
use system_k_dev.Base.{ℕ, ◌≡◌, refl, true, none, some, List, ◌∷◌, ◌++◌, length}
use system_k_dev.Route.{Bytes, Route, zmq_addr_len}
use system_k_dev.Broker.Turns.{done, fails}
use system_k_dev.Broker.Maps.{MapOps, MapLaws, is_id}
use system_k_dev.Broker.{
  Frame, OrderInfo, Broker, deleted_strategy, deleted_order, get_route, rcv_internal,
}
use system_k_dev.Broker.Frames.{one_hop, send_nodes-one_hop, forward-frames_of, set_id-is_id}
use system_k_dev.Broker.Spec.{frames_of}

module _ {M N : Type 0} (maps : MapOps M Route) (orders : MapOps N OrderInfo)
    (laws : MapLaws maps deleted_strategy) (order_laws : MapLaws orders deleted_order)
    (venue_id : ℕ) where
  -- The frames of the first message of the queue go to the strategies.
  pub rcv_internal-eq :
      (b : Broker M N) (sid address x : Bytes) (ys : List Bytes) (fs : List Frame)
      → is_id deleted_strategy sid ≡ true
      → length address ≡ zmq_addr_len
      → maps.find sid b.scache ≡ some (one_hop address)
      → b.inproc ≡ (sid, true) ∷ (frames_of x ys ++ fs)
      → rcv_internal maps orders b
        ≡ done (record b { inproc = fs; sent = b.sent ++ ((address, true) ∷ frames_of x ys) })
  unfolding rcv_internal get_route
  rcv_internal-eq b sid address x ys fs i a found e =
      rw (e, rcv_internal)
        (rw (set_id-is_id deleted_strategy sid i) (
          rw (found, get_route)
            (rw (send_nodes-one_hop address a) (rw (forward-frames_of x ys fs) refl))))

  pub rcv_internal-orphan :
      (b : Broker M N) (sid : Bytes) (fs : List Frame)
      → is_id deleted_strategy sid ≡ true
      → maps.find sid b.scache ≡ none
      → b.inproc ≡ (sid, true) ∷ fs
      → rcv_internal maps orders b ≡ fails
  unfolding rcv_internal get_route
  rcv_internal-orphan b sid fs i unknown e =
      rw (e, rcv_internal) (rw (set_id-is_id deleted_strategy sid i) (rw (unknown, get_route) refl))
